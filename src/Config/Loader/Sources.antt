-- ===== src/Config/Loader/Sources.antt =====
-- internal/config/config.go: which apps are loaded, and from which file.
use mathlib.Core.Path.{subst, ap₂}
use lazywrap.Base.{
  ℕ, zero, suc, ◌≡◌, refl, sym, ◌⊎◌, inl, inr, Bytes, bytes_eq, eq_bytes, eq_bytes_iff, Bool, List,
  [], ◌∷◌, ◌++◌, some, arith, IsIn, Bool-cases, Option-cases, lookup,
}
use lazywrap.Config.Endpoint.{AppConfig}
use lazywrap.Config.Normalize.{Config}
use lazywrap.Config.Loader.{
  Disk, Loaded, loaded, ResourceConfig, within, ResourceLoader, add_apps, read_resource, locate,
  from_ancestor, load_all, load_one, load_resources, root_sources,
}
use lazywrap.Config.Loader.Grown.{
  >>=-loaded, within-loaded, Has, Grown, Grown-none, Grown-join, add_apps-Added,
}

-- The resources that are loaded for a file: its own, and those of the files that it includes.
module _ (d : Disk) (strict : Bool) where
  pub data Opens (t : Bytes) (r : ResourceConfig) : Bytes → Type 0 where
    itself : (p : Bytes) → p ≡ t → read_resource d strict p ≡ loaded r → Opens t r p
    below :
        (p q : Bytes) (here : ResourceConfig) (resource : Bytes)
        → read_resource d strict p ≡ loaded here
        → IsIn resource here.resources
        → locate d p resource ≡ loaded q
        → Opens t r q
        → Opens t r p

  -- Those of the resources that the file `declaring` names.
  abbrev pub Includes : Bytes → List Bytes → Bytes → ResourceConfig → Type 0
  Includes declaring resources t r =
      (resource : Bytes) × (q : Bytes) × IsIn resource resources
      × (locate d declaring resource ≡ loaded q)
      × Opens t r q

  Opens-cases :
      {t : Bytes} {r : ResourceConfig} (p : Bytes)
      → Opens t r p
      → ((p ≡ t) × (read_resource d strict p ≡ loaded r))
        ⊎ ((here : ResourceConfig) × (read_resource d strict p ≡ loaded here)
            × Includes p here.resources t r)
  Opens-cases p (itself _ e read) = inl (e, read)
  Opens-cases p (below _ q here resource read i at o) = inr (here, read, (resource, q, i, at, o))

  Includes-cases :
      (declaring resource path : Bytes) (more : List Bytes) {t : Bytes} {r : ResourceConfig}
      → locate d declaring resource ≡ loaded path
      → Includes declaring (resource ∷ more) t r
      → Opens t r path ⊎ Includes declaring more t r
  Includes-cases declaring resource path more {t} {r} at (x, q, inl e, at', o) =
      let same : q ≡ path = cc in inl (subst (Opens t r) same o)
  Includes-cases declaring resource path more at (x, q, inr i, at', o) = inr (x, q, i, at', o)

  load_all-Grown :
      (one : Bytes → List Bytes → ResourceLoader → Loaded ResourceLoader)
      → ((path : Bytes) (stack : List Bytes) (l l' : ResourceLoader)
          → one path stack l ≡ loaded l'
          → Grown (λ t r. Opens t r path) l l')
      → (declaring : Bytes) (stack resources : List Bytes) (l l' : ResourceLoader)
      → load_all d one declaring stack resources l ≡ loaded l'
      → Grown (Includes declaring resources) l l'
  unfolding load_all
  load_all-Grown one grows declaring stack [] l l' h =
      let q : l ≡ l' = cc in
      subst (Grown (Includes declaring []) l) q
        (Grown-none (Includes declaring []) l (λ p r i. absurd i.2))
  load_all-Grown one grows declaring stack (resource ∷ more) l l' h =
      let (path, at, h1) = >>=-loaded (locate d declaring resource) _ h in
      elim (Option-cases (from_ancestor path stack)) [
        | inr (chain, e) ↦ absurd (ground (arith, e, h1))
        | inl free ↦
            let (l1, w, h2) =
              >>=-loaded (within path (one path (stack ++ path ∷ []) l)) _ (rw free at h1) in
            let first =
              grows path (stack ++ path ∷ []) l l1
                (within-loaded path (one path (stack ++ path ∷ []) l) w) in
            let rest = load_all-Grown one grows declaring stack more l1 l' h2 in
            Grown-join (λ t r. Opens t r path) (Includes declaring more)
              (Includes declaring (resource ∷ more)) l l1 l' first rest
              (λ t r i. Includes-cases declaring resource path more at i)
              (λ t r i. elim i [
                | inl o ↦ (resource, path, inl refl, at, o)
                | inr (x, q, j, at', o) ↦ (x, q, inr j, at', o)
              ])
      ]

  load_one-Grown :
      (fuel : ℕ) (path : Bytes) (stack : List Bytes) (l l' : ResourceLoader)
      → load_one fuel d strict path stack l ≡ loaded l'
      → Grown (λ t r. Opens t r path) l l'
  unfolding load_one
  load_one-Grown zero path stack l l' h = absurd cc
  load_one-Grown (suc fuel) path stack l l' h =
      let (r, read, h1) = >>=-loaded (read_resource d strict path) _ h in
      let (l1, added, h2) = >>=-loaded (add_apps path r.apps l) _ h1 in
      let own = add_apps-Added path r.apps l l1 added in
      let rest =
        load_all-Grown (load_one fuel d strict) (load_one-Grown fuel) path stack r.resources l1 l'
          h2 in
      record {
        kept = λ id a s has. rest.kept id a s (own.kept id a s has);
        complete = λ t s o id a i. elim (Opens-cases path o) [
          | inl (e, again) ↦
              let same : s ≡ r = cc in
              subst (Has l' id a) e
                (rest.kept id a path (own.complete id a (subst (λ x. IsIn (id, a) x.apps) same i)))
          | inr (here, again, inc) ↦
              let same : here ≡ r = cc in
              rest.complete t s (subst (λ x. Includes path x.resources t s) same inc) id a i
        ];
        sound = λ id a s has. elim (rest.sound id a s has) [
          | inr (r', (x, q, j, at, o), i) ↦ inr (r', below path q r x read j at o, i)
          | inl has' ↦ elim (own.sound id a s has') [
            | inl has0 ↦ inl has0
            | inr (e, i) ↦ inr (r, itself path (sym e) read, i)
          ]
        ];
      }

  lookup-root_sources :
      (root id : Bytes) (apps : List (Bytes × AppConfig)) (s : Bytes)
      → lookup id (root_sources root apps) ≡ some s
      → s ≡ root
  unfolding lookup
  lookup-root_sources root id [] s h = cc
  lookup-root_sources root id ((j, a) ∷ apps) s h =
      ground (arith, h, lookup-root_sources root id apps s)

  lookup-IsIn :
      {V : Type 0} (id : Bytes) (m : List (Bytes × V)) (v : V)
      → lookup id m ≡ some v
      → IsIn (id, v) m
  unfolding lookup
  lookup-IsIn id [] v h = absurd cc
  lookup-IsIn id ((j, w) ∷ m) v h = elim (Bool-cases (eq_bytes j id)) [
    | inl e ↦
        let same : j ≡ id = (eq_bytes_iff j id).0 e in
        let x : w ≡ v = ground (arith, e, h) in inl (ap₂ (λ a b. (a, b)) same x)
    | inr e ↦ inr (lookup-IsIn id m v (ground (arith, e, h)))
  ]

-- When a configuration loads with its resources, each app of a file that is included, at any depth, is
-- loaded under its name with that file as its source; and each loaded app is declared by its source,
-- which is the root file or one that is included.
pub load_resources_exact :
    (fuel : ℕ) (d : Disk) (strict : Bool) (root : Bytes) (c : Config) (resources : List Bytes)
    (l : ResourceLoader)
    → load_resources fuel d strict root c resources ≡ loaded l
    → ((p : Bytes) (r : ResourceConfig)
        → Includes d strict root resources p r
        → (id : Bytes) (a : AppConfig) → IsIn (id, a) r.apps
        → Has l id a p)
      × ((id : Bytes) (a : AppConfig) (s : Bytes)
          → Has l id a s
          → ((s ≡ root) × IsIn (id, a) c.apps)
            ⊎ ((r : ResourceConfig) × Includes d strict root resources s r × IsIn (id, a) r.apps))
unfolding load_resources
load_resources_exact fuel d strict root c resources l h =
    let g =
      load_all-Grown d strict (load_one fuel d strict) (load_one-Grown d strict fuel) root
        (root ∷ []) resources _ l h in
    (
      g.complete,
      λ id a s has. elim (g.sound id a s has) [
        | inr x ↦ inr x
        | inl (x, y) ↦
            inl
              (lookup-root_sources d strict root id c.apps s y, lookup-IsIn d strict id c.apps a x)
      ],
    )
