-- ===== src/Config/Loader/Circles.antt =====
-- internal/config/config.go: a file that includes itself, at any depth, does not load.
use mathlib.Core.Path.{subst}
use lazywrap.Base.{
  ℕ, zero, suc, ◌≡◌, refl, sym, ◌⊎◌, inl, inr, Bytes, bytes_eq, eq_bytes_iff, Bool, List, [], ◌∷◌,
  ◌++◌, none, arith, IsIn, Option-cases,
}
use lazywrap.Config.Normalize.{Config}
use lazywrap.Config.Loader.{
  Disk, Loaded, loaded, ResourceConfig, within, ResourceLoader, add_apps, read_resource, locate,
  from_ancestor, load_all, load_one, load_resources, root_sources,
}
use lazywrap.Config.Loader.Grown.{>>=-loaded, within-loaded}

from_ancestor-IsIn :
    (path : Bytes) (stack : List Bytes) → IsIn path stack → from_ancestor path stack ≡ none → ⊥
unfolding from_ancestor
from_ancestor-IsIn path [] i h = absurd i
from_ancestor-IsIn path (p ∷ stack) (inl e) h = ground (arith, eq_bytes_iff p path)
from_ancestor-IsIn path (p ∷ stack) (inr i) h = from_ancestor-IsIn path stack i (ground (arith, h))

IsIn-snoc : (t q : Bytes) (stack : List Bytes) → IsIn t stack → IsIn t (stack ++ q ∷ [])
IsIn-snoc t q [] i = absurd i
IsIn-snoc t q (p ∷ stack) (inl e) = inl e
IsIn-snoc t q (p ∷ stack) (inr i) = inr (IsIn-snoc t q stack i)

IsIn-last : (q : Bytes) (stack : List Bytes) → IsIn q (stack ++ q ∷ [])
IsIn-last q [] = inl refl
IsIn-last q (p ∷ stack) = inr (IsIn-last q stack)

module _ (d : Disk) (strict : Bool) where
  -- The file names the file `t` among its resources, or one that leads to `t`.
  pub data Leads (t : Bytes) : Bytes → Type 0 where
    at_once :
        (p : Bytes) (here : ResourceConfig) (resource : Bytes)
        → read_resource d strict p ≡ loaded here
        → IsIn resource here.resources
        → locate d p resource ≡ loaded t
        → Leads t p
    through :
        (p q : Bytes) (here : ResourceConfig) (resource : Bytes)
        → read_resource d strict p ≡ loaded here
        → IsIn resource here.resources
        → locate d p resource ≡ loaded q
        → Leads t q
        → Leads t p

  -- One of the resources of the root file is a file that is the root file or leads back to it, or
  -- that is or leads to a file which leads back to itself.
  abbrev pub Circle : Bytes → List Bytes → Type 0
  Circle root resources =
      (resource : Bytes) × (q : Bytes) × IsIn resource resources
      × (locate d root resource ≡ loaded q)
      × ((root ≡ q ⊎ Leads root q) ⊎ ((p : Bytes) × (p ≡ q ⊎ Leads p q) × Leads p p))

  -- The file is not on the stack and loads.
  abbrev IsUp :
      (Bytes → List Bytes → ResourceLoader → Loaded ResourceLoader) → List Bytes → Bytes → Type 0
  IsUp one stack q =
      (from_ancestor q stack ≡ none)
      × ((l1 : ResourceLoader) × (l2 : ResourceLoader) × (one q (stack ++ q ∷ []) l1 ≡ loaded l2))

  -- A resource of a file that loads is not on the stack and loads.
  load_all_each :
      (one : Bytes → List Bytes → ResourceLoader → Loaded ResourceLoader) (declaring : Bytes)
      (stack resources : List Bytes) (l l' : ResourceLoader)
      → load_all d one declaring stack resources l ≡ loaded l'
      → (resource q : Bytes) → IsIn resource resources
      → locate d declaring resource ≡ loaded q
      → IsUp one stack q
  unfolding load_all
  load_all_each one declaring stack [] l l' h resource q i at = absurd i
  load_all_each one declaring stack (r ∷ more) l l' h resource q i at =
      let (path, at', h1) = >>=-loaded (locate d declaring r) _ h in
      elim (Option-cases (from_ancestor path stack)) [
        | inr (chain, e) ↦ absurd (ground (arith, e, h1))
        | inl free ↦
            let (l1, w, h2) =
              >>=-loaded (within path (one path (stack ++ path ∷ []) l)) _ (rw free at h1) in
            elim i [
              | inl e ↦
                  let same : path ≡ q = cc in
                  let up : IsUp one stack path =
                    (free, (l, l1, within-loaded path (one path (stack ++ path ∷ []) l) w)) in
                  subst (IsUp one stack) same up
              | inr j ↦ load_all_each one declaring stack more l1 l' h2 resource q j at
            ]
      ]

  -- The same for a file that `load_one` loads.
  load_one_each :
      (fuel : ℕ) (path : Bytes) (stack : List Bytes) (l l' : ResourceLoader)
      → load_one (suc fuel) d strict path stack l ≡ loaded l'
      → (here : ResourceConfig) (resource q : Bytes) → read_resource d strict path ≡ loaded here
      → IsIn resource here.resources
      → locate d path resource ≡ loaded q
      → IsUp (load_one fuel d strict) stack q
  unfolding load_one
  load_one_each fuel path stack l l' h here resource q read i at =
      let (r, read', h1) = >>=-loaded (read_resource d strict path) _ h in
      let (l1, added, h2) = >>=-loaded (add_apps path r.apps l) _ h1 in
      let same : here ≡ r = cc in
      load_all_each (load_one fuel d strict) path stack r.resources l1 l' h2 resource q
        (rw same at i) at

  -- A file that loads does not lead to one that is being loaded.
  load_one_open :
      (t : Bytes) (fuel : ℕ) (path : Bytes) (stack : List Bytes) (l l' : ResourceLoader)
      → load_one fuel d strict path stack l ≡ loaded l'
      → IsIn t stack
      → Leads t path
      → ⊥
  unfolding load_one
  load_one_open t zero path stack l l' h i x = absurd cc
  load_one_open t (suc fuel) path stack l l' h i (at_once _ here resource read j at) =
      from_ancestor-IsIn t stack i
        (load_one_each fuel path stack l l' h here resource t read j at).0
  load_one_open t (suc fuel) path stack l l' h i (through _ q here resource read j at x) =
      let (free, (l1, l2, g)) = load_one_each fuel path stack l l' h here resource q read j at in
      load_one_open t fuel q (stack ++ q ∷ []) l1 l2 g (IsIn-snoc t q stack i) x

  -- A file that another leads to, which loads, leads not to itself.
  load_one_below :
      (p : Bytes) (fuel : ℕ) (path : Bytes) (stack : List Bytes) (l l' : ResourceLoader)
      → load_one fuel d strict path stack l ≡ loaded l'
      → Leads p path
      → Leads p p
      → ⊥
  unfolding load_one
  load_one_below p zero path stack l l' h x y = absurd cc
  load_one_below p (suc fuel) path stack l l' h (at_once _ here resource read j at) y =
      let (free, (l1, l2, g)) = load_one_each fuel path stack l l' h here resource p read j at in
      load_one_open p fuel p (stack ++ p ∷ []) l1 l2 g (IsIn-last p stack) y
  load_one_below p (suc fuel) path stack l l' h (through _ q here resource read j at x) y =
      let (free, (l1, l2, g)) = load_one_each fuel path stack l l' h here resource q read j at in
      load_one_below p fuel q (stack ++ q ∷ []) l1 l2 g x y

  pub load_resources-Circle :
      (fuel : ℕ) (root : Bytes) (c : Config) (resources : List Bytes) (l : ResourceLoader)
      → load_resources fuel d strict root c resources ≡ loaded l
      → Circle root resources
      → ⊥
  unfolding load_resources
  load_resources-Circle fuel root c resources l h (resource, q, i, at, circle) =
      let start : ResourceLoader = record { apps = c.apps; sources = root_sources root c.apps } in
      let (free, (l1, l2, g)) =
        load_all_each (load_one fuel d strict) root (root ∷ []) resources start l h resource q i
          at in
      elim circle [
        | inl (inl e) ↦ from_ancestor-IsIn q (root ∷ []) (inl e) free
        | inl (inr x) ↦ load_one_open root fuel q (root ∷ q ∷ []) l1 l2 g (inl refl) x
        | inr (p, inl e, y) ↦
            load_one_open p fuel q (root ∷ q ∷ []) l1 l2 g (inr (inl (sym e))) (subst (Leads p) e y)
        | inr (p, inr x, y) ↦ load_one_below p fuel q (root ∷ q ∷ []) l1 l2 g x y
      ]
