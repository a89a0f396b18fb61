-- ===== src/Config/Loader/Grown.antt =====
-- internal/config/config.go: what one resource file adds to the apps that are loaded.
use mathlib.Core.Path.{subst}
use lazywrap.Base.{
  ◌≡◌, refl, ap, ◌⊎◌, inl, inr, Bytes, bytes_eq, eq_bytes, eq_bytes_iff, List, [], ◌∷◌, none, some,
  arith, IsIn, Bool-cases, Option-cases, lookup, insert, lookup-insert,
}
use lazywrap.Config.Endpoint.{AppConfig}
use lazywrap.Config.Loader.{
  Loaded, loaded, failed, ResourceConfig, within, ◌>>=◌, ResourceLoader, add_apps,
}

pub >>=-loaded {ℓ κ} :
    {A : Type ℓ} {B : Type κ} (m : Loaded A) (f : A → Loaded B) {b : B}
    → (m >>= f) ≡ loaded b
    → (a : A) × (m ≡ loaded a) × (f a ≡ loaded b)
>>=-loaded (loaded a) f h = (a, refl, h)
>>=-loaded (failed e) f h = cc

pub within-loaded {ℓ} :
    {A : Type ℓ} (path : Bytes) (m : Loaded A) {a : A} → within path m ≡ loaded a → m ≡ loaded a
within-loaded path (loaded b) h = h
within-loaded path (failed e) h = cc

-- The app `a` is loaded under `id`, from the file `s`.
abbrev pub Has : ResourceLoader → Bytes → AppConfig → Bytes → Type 0
Has l id a s = (lookup id l.apps ≡ some a) × (lookup id l.sources ≡ some s)

-- `l'` has what `l` has, and the apps of the resources that `I` names, with their paths.
pub record Grown (I : Bytes → ResourceConfig → Type 0) (l l' : ResourceLoader) : Type 0 where
  pub kept : (id : Bytes) (a : AppConfig) (s : Bytes) → Has l id a s → Has l' id a s
  pub complete :
      (p : Bytes) (r : ResourceConfig)
      → I p r
      → (id : Bytes) (a : AppConfig) → IsIn (id, a) r.apps
      → Has l' id a p
  pub sound :
      (id : Bytes) (a : AppConfig) (s : Bytes)
      → Has l' id a s
      → Has l id a s ⊎ ((r : ResourceConfig) × I s r × IsIn (id, a) r.apps)

pub Grown-none :
    (I : Bytes → ResourceConfig → Type 0) (l : ResourceLoader)
    → ((p : Bytes) (r : ResourceConfig) → I p r → ⊥)
    → Grown I l l
Grown-none I l never = record {
  kept = λ id a s h. h;
  complete = λ p r i. absurd (never p r i);
  sound = λ id a s h. inl h;
}

pub Grown-join :
    (I J K : Bytes → ResourceConfig → Type 0) (l l' l'' : ResourceLoader)
    → Grown I l l'
    → Grown J l' l''
    → ((p : Bytes) (r : ResourceConfig) → K p r → I p r ⊎ J p r)
    → ((p : Bytes) (r : ResourceConfig) → I p r ⊎ J p r → K p r)
    → Grown K l l''
Grown-join I J K l l' l'' g h split join = record {
  kept = λ id a s has. h.kept id a s (g.kept id a s has);
  complete = λ p r k id a i. elim (split p r k) [
    | inl x ↦ h.kept id a p (g.complete p r x id a i)
    | inr x ↦ h.complete p r x id a i
  ];
  sound = λ id a s has. elim (h.sound id a s has) [
    | inr (r, x, i) ↦ inr (r, join s r (inr x), i)
    | inl has' ↦ elim (g.sound id a s has') [
      | inl has0 ↦ inl has0
      | inr (r, x, i) ↦ inr (r, join s r (inl x), i)
    ]
  ];
}

-- The apps of one file.
pub record Added (path : Bytes) (apps : List (Bytes × AppConfig)) (l l' : ResourceLoader)
    : Type 0 where
  pub kept : (id : Bytes) (a : AppConfig) (s : Bytes) → Has l id a s → Has l' id a s
  pub complete : (id : Bytes) (a : AppConfig) → IsIn (id, a) apps → Has l' id a path
  pub sound :
      (id : Bytes) (a : AppConfig) (s : Bytes)
      → Has l' id a s
      → Has l id a s ⊎ ((s ≡ path) × IsIn (id, a) apps)

-- One round of the loop.
abbrev put : Bytes → AppConfig → Bytes → ResourceLoader → ResourceLoader
put id app path l = record { apps = insert id app l.apps; sources = insert id path l.sources }

module _ (id : Bytes) (app : AppConfig) (path : Bytes) (l : ResourceLoader) where
  put_at : Has (put id app path l) id app path
  put_at = (
    ground (arith, lookup-insert id id app l.apps, eq_bytes_iff id id),
    ground (arith, lookup-insert id id path l.sources, eq_bytes_iff id id),
  )

  put_kept :
      (j : Bytes) (a : AppConfig) (s : Bytes)
      → lookup id l.sources ≡ none
      → Has l j a s
      → Has (put id app path l) j a s
  put_kept j a s free has = elim (Bool-cases (eq_bytes id j)) [
    | inl e ↦
        let same : id ≡ j = (eq_bytes_iff id j).0 e in
        absurd (ground (arith, free, has.1, ap (λ x. lookup x l.sources) same))
    | inr e ↦ (
      ground (arith, e, has.0, lookup-insert id j app l.apps),
      ground (arith, e, has.1, lookup-insert id j path l.sources),
    )
  ]

  put_sound :
      (j : Bytes) (a : AppConfig) (s : Bytes)
      → Has (put id app path l) j a s
      → Has l j a s ⊎ ((s ≡ path) × (◌≡◌ {A = Bytes × AppConfig} (id, app) (j, a)))
  put_sound j a s has = elim (Bool-cases (eq_bytes id j)) [
    | inl e ↦
        let same : id ≡ j = (eq_bytes_iff id j).0 e in
        let x : some app ≡ some a = ground (arith, e, has.0, lookup-insert id j app l.apps) in
        let y : some path ≡ some s = ground (arith, e, has.1, lookup-insert id j path l.sources) in
        inr (cc, cc)
    | inr e ↦ inl (
      ground (arith, e, has.0, lookup-insert id j app l.apps),
      ground (arith, e, has.1, lookup-insert id j path l.sources),
    )
  ]

pub add_apps-Added :
    (path : Bytes) (apps : List (Bytes × AppConfig)) (l l' : ResourceLoader)
    → add_apps path apps l ≡ loaded l'
    → Added path apps l l'
unfolding add_apps
add_apps-Added path [] l l' h =
    let q : l ≡ l' = cc in
    subst (Added path [] l) q (record {
      kept = λ id a s has. has;
      complete = λ id a i. absurd i;
      sound = λ id a s has. inl has;
    })
add_apps-Added path ((id, app) ∷ more) l l' h = elim (Option-cases (lookup id l.sources)) [
  | inr (s, e) ↦ absurd (ground (arith, e, h))
  | inl e ↦
      let g = add_apps-Added path more (put id app path l) l' (ground (arith, e, h)) in
      record {
        kept = λ j a s has. g.kept j a s (put_kept id app path l j a s e has);
        complete = λ j a i. elim i [
          | inl q ↦
              subst (λ (x : Bytes × AppConfig). Has l' x.0 x.1 path) q
                (g.kept id app path (put_at id app path l))
          | inr k ↦ g.complete j a k
        ];
        sound = λ j a s has. elim (g.sound j a s has) [
          | inr (q, k) ↦ inr (q, inr k)
          | inl has' ↦ elim (put_sound id app path l j a s has') [
            | inl has0 ↦ inl has0
            | inr (q, k) ↦ inr (q, inl k)
          ]
        ];
      }
]
