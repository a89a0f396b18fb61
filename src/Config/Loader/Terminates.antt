-- ===== src/Config/Loader/Terminates.antt =====
-- internal/config/config.go: the recursion through the included files ends.
use lazywrap.Base.{
  ℕ, zero, suc, ◌+◌, ◌≤◌, ◌<◌, ◌≡◌, refl, ap, inl, inr, Bytes, bytes_eq, eq_bytes, eq_bytes_iff,
  Bool, true, false, List, [], ◌∷◌, ◌++◌, Option, none, some, arith, length, IsIn, Bool-cases,
  Option-cases, Option_lem, if_lem, lookup, if◌then◌else◌, is_empty, trim_space,
}
use lazywrap.Config.Normalize.{Config, expand_home_path}
use lazywrap.Config.Types.{RuntimeConfig}
use lazywrap.Config.Loader.Circles.{Circle, load_resources-Circle}
use lazywrap.Config.Loader.Grown.{>>=-loaded}
use lazywrap.Config.Loader.{
  Disk, Loaded, loaded, failed, LoadError, fuel_spent, no_canonical_path, unreadable, undecodable,
  in_resource, or_fail, within, ◌>>=◌, canonical_path, field_error, check_fields,
  validate_resource_fields, ResourceLoader, add_apps, read_resource, locate, from_ancestor,
  load_all, load_one, load_resources, finish_load, load,
}

-- The error is that of the fuel, in the resources that lead to it.
abbrev pub is_spent : LoadError → Bool
is_spent fuel_spent = true
is_spent (in_resource path e) = is_spent e
is_spent _ = false

-- The result is not for want of fuel.
abbrev pub Ends {ℓ} : {A : Type ℓ} → Loaded A → Type 0
Ends (loaded a) = Unit
Ends (failed e) = is_spent e ≡ false

>>=-Ends {ℓ κ} :
    {A : Type ℓ} {B : Type κ} (m : Loaded A) (f : A → Loaded B)
    → Ends m
    → ((a : A) → m ≡ loaded a → Ends (f a))
    → Ends (m >>= f)
>>=-Ends (loaded a) f h k = k a refl
>>=-Ends (failed e) f h k = h

within-Ends {ℓ} : {A : Type ℓ} (path : Bytes) (m : Loaded A) → Ends m → Ends (within path m)
within-Ends path (loaded a) h = tt
within-Ends path (failed e) h = h

or_fail-Ends {ℓ} :
    {A : Type ℓ} (e : LoadError) (o : Option A) → is_spent e ≡ false → Ends (or_fail e o)
or_fail-Ends e none h = h
or_fail-Ends e (some a) h = tt

field_error-Ends :
    (strict : Bool) (field : Bytes) (e : LoadError)
    → field_error strict field ≡ some e
    → is_spent e ≡ false
unfolding field_error
field_error-Ends strict field e h = ground arith

check_fields-Ends :
    (strict : Bool) (fields : List Bytes) (e : LoadError)
    → check_fields strict fields ≡ some e
    → is_spent e ≡ false
unfolding check_fields
check_fields-Ends strict [] e h = cc
check_fields-Ends strict (field ∷ []) e h = field_error-Ends strict field e h
check_fields-Ends strict (field ∷ value ∷ more) e h =
    ground (arith, field_error-Ends strict field e, check_fields-Ends strict more e)

validate-Ends :
    (strict : Bool) (document : _) (e : LoadError)
    → validate_resource_fields strict document ≡ some e
    → is_spent e ≡ false
unfolding validate_resource_fields
validate-Ends strict none e h = cc
validate-Ends strict (some root) e h = ground (arith, h, check_fields-Ends strict root.content e)

read_resource-Ends : (d : Disk) (strict : Bool) (path : Bytes) → Ends (read_resource d strict path)
unfolding read_resource validate_resource_fields
read_resource-Ends d strict path =
    >>=-Ends (or_fail unreadable (d.world.read_file path)) _
      (or_fail-Ends unreadable (d.world.read_file path) refl)
      (λ b _.
        >>=-Ends (or_fail undecodable (d.unmarshal b)) _
          (or_fail-Ends undecodable (d.unmarshal b) refl)
          (λ document _.
            Option_lem Ends (validate_resource_fields strict document)
              (λ _. or_fail-Ends undecodable (d.decode_resource strict b) refl)
              (λ e h. validate-Ends strict document e h)))

add_apps-Ends : (path : Bytes) (apps : _) (l : ResourceLoader) → Ends (add_apps path apps l)
unfolding add_apps
add_apps-Ends path [] l = tt
add_apps-Ends path ((id, app) ∷ more) l =
    Option_lem Ends (lookup id l.sources) (λ _. add_apps-Ends path more _) (λ first _. refl)

-- How many of the files are not on the stack.
is_on : Bytes → List Bytes → Bool
unfolding eq_bytes
is_on path [] = false
is_on path (p ∷ stack) = let rest = is_on path stack in if eq_bytes p path then true else rest

off_stack : List Bytes → List Bytes → ℕ
off_stack stack [] = 0
off_stack stack (f ∷ files) = (if is_on f stack then 0 else 1) + off_stack stack files

is_on_snoc :
    (path : Bytes) (stack : List Bytes) (p : Bytes)
    → is_on path (stack ++ p ∷ []) ≡ (if is_on path stack then true else eq_bytes p path)
unfolding is_on
is_on_snoc path [] p = ground arith
is_on_snoc path (q ∷ stack) p = ground (arith, is_on_snoc path stack p)

from_ancestor-is_on :
    (path : Bytes) (stack : List Bytes) → from_ancestor path stack ≡ none → is_on path stack ≡ false
unfolding from_ancestor is_on
from_ancestor-is_on path [] h = refl
from_ancestor-is_on path (p ∷ stack) h = ground (arith, from_ancestor-is_on path stack)

off_stack-le :
    (stack : List Bytes) (p : Bytes) (files : List Bytes)
    → off_stack (stack ++ p ∷ []) files ≤ off_stack stack files
unfolding off_stack
off_stack-le stack p [] = omega arith
off_stack-le stack p (f ∷ files) = ground (arith, is_on_snoc f stack p, off_stack-le stack p files)

off_stack-lt :
    (stack : List Bytes) (p : Bytes) (files : List Bytes)
    → IsIn p files
    → is_on p stack ≡ false
    → off_stack (stack ++ p ∷ []) files < off_stack stack files
unfolding off_stack
off_stack-lt stack p [] i h = absurd i
off_stack-lt stack p (f ∷ files) (inl e) h = ground (
  arith,
  is_on_snoc f stack p,
  off_stack-le stack p files,
  eq_bytes_iff p f,
  ap (λ x. is_on x stack) e,
)
off_stack-lt stack p (f ∷ files) (inr i) h =
    ground (arith, is_on_snoc f stack p, off_stack-lt stack p files)

off_stack_le_length : (stack files : List Bytes) → off_stack stack files ≤ length files
unfolding off_stack
off_stack_le_length stack [] = omega arith
off_stack_le_length stack (f ∷ files) = ground (arith, off_stack_le_length stack files)

locate-Ends : (d : Disk) (declaring resource : Bytes) → Ends (locate d declaring resource)
unfolding locate
locate-Ends d declaring resource = if_lem Ends (is_empty (trim_space resource)) refl (
    >>=-Ends (or_fail no_canonical_path (expand_home_path d.world (trim_space resource))) _
      (or_fail-Ends no_canonical_path (expand_home_path d.world (trim_space resource)) refl)
      (λ path _. or_fail-Ends no_canonical_path _ refl))

-- Every canonical path is that of one of the files.
abbrev pub AllIn : Disk → List Bytes → Type 0
AllIn d files = (p c : Bytes) → d.eval_symlinks p ≡ some c → IsIn c files

canonical_path-IsIn :
    (d : Disk) (files : List Bytes) (p c : Bytes)
    → AllIn d files
    → canonical_path d p ≡ some c
    → IsIn c files
unfolding canonical_path
canonical_path-IsIn d files p c all h = elim (Option-cases (expand_home_path d.world p)) [
  | inl n ↦ absurd (ground (arith, n, h))
  | inr (e, n) ↦ elim (Option-cases (d.abs e)) [
    | inl m ↦ absurd (ground (arith, n, m, h))
    | inr (a, m) ↦ all a c (ground (arith, n, m, h))
  ]
]

locate-IsIn :
    (d : Disk) (files : List Bytes) (declaring resource c : Bytes)
    → AllIn d files
    → locate d declaring resource ≡ loaded c
    → IsIn c files
unfolding locate
locate-IsIn d files declaring resource c all h =
    elim (Bool-cases (is_empty (trim_space resource))) [
      | inl e ↦ absurd (ground (arith, e, h))
      | inr e ↦ elim (Option-cases (expand_home_path d.world (trim_space resource))) [
        | inl n ↦ absurd (ground (arith, e, n, h))
        | inr (p, n) ↦
            let at = if d.world.is_abs p then p else d.world.join (d.dir declaring) p in
            canonical_path-IsIn d files at c all
              (ground (arith, e, n, h, Option-cases (canonical_path d at)))
      ]
    ]

module _ (d : Disk) (strict : Bool) (files : List Bytes) (all : AllIn d files) where
  load_all-Ends :
      (fuel : ℕ) (one : Bytes → List Bytes → ResourceLoader → Loaded ResourceLoader)
      → ((path : Bytes) (stack : List Bytes) (l : ResourceLoader)
          → off_stack stack files < fuel
          → Ends (one path stack l))
      → (declaring : Bytes) (stack resources : List Bytes) (l : ResourceLoader)
      → off_stack stack files ≤ fuel
      → Ends (load_all d one declaring stack resources l)
  unfolding load_all
  load_all-Ends fuel one ends declaring stack [] l le = tt
  load_all-Ends fuel one ends declaring stack (resource ∷ more) l le =
      >>=-Ends (locate d declaring resource) _ (locate-Ends d declaring resource) (λ path at.
        Option_lem Ends (from_ancestor path stack)
          (λ free.
            >>=-Ends (within path (one path (stack ++ path ∷ []) l)) _
              (within-Ends path (one path (stack ++ path ∷ []) l) (
                ends path (stack ++ path ∷ []) l (
                  ground (
                    arith,
                    off_stack-lt stack path files
                        (locate-IsIn d files declaring resource path all at)
                        (from_ancestor-is_on path stack free),
                  ))))
              (λ l' _. load_all-Ends fuel one ends declaring stack more l' le))
          (λ chain _. refl))

  load_one-Ends :
      (fuel : ℕ) (path : Bytes) (stack : List Bytes) (l : ResourceLoader)
      → off_stack stack files < fuel
      → Ends (load_one fuel d strict path stack l)
  unfolding load_one
  load_one-Ends zero path stack l lt = absurd (omega arith)
  load_one-Ends (suc fuel) path stack l lt =
      >>=-Ends (read_resource d strict path) _ (read_resource-Ends d strict path) (λ r _.
        >>=-Ends (add_apps path r.apps l) _ (add_apps-Ends path r.apps l) (λ l' _.
          load_all-Ends fuel (load_one fuel d strict) (load_one-Ends fuel) path stack r.resources l'
            (omega arith)))

  finish_load-Ends : (c : Config) (l : ResourceLoader) → Ends (finish_load d c l)
  unfolding finish_load
  finish_load-Ends c l = ground arith

  load-Ends : (fuel : ℕ) (path : Bytes) → length files ≤ fuel → Ends (load fuel d path strict)
  unfolding load load_resources
  load-Ends fuel path le =
      >>=-Ends (or_fail no_canonical_path (canonical_path d path)) _
        (or_fail-Ends no_canonical_path (canonical_path d path) refl)
        (λ root _.
          >>=-Ends (or_fail unreadable (d.world.read_file root)) _
            (or_fail-Ends unreadable (d.world.read_file root) refl)
            (λ b _.
              >>=-Ends (or_fail undecodable (d.decode_config strict b)) _
                (or_fail-Ends undecodable (d.decode_config strict b) refl)
                (λ cr _.
                  >>=-Ends (load_resources fuel d strict root cr.0 cr.1) _
                    (load_all-Ends fuel (load_one fuel d strict) (load_one-Ends fuel) root
                      (root ∷ []) cr.1 _ (ground (arith, off_stack_le_length (root ∷ []) files)))
                    (λ l _. finish_load-Ends cr.0 l))))

failed-cases {ℓ} :
    {A : Type ℓ} (m : Loaded A) → ((a : A) → m ≡ loaded a → ⊥) → (e : LoadError) × (m ≡ failed e)
failed-cases (loaded a) h = absurd (h a refl)
failed-cases (failed e) h = (e, refl)

-- The file at the path is `root`, which decodes to `c` and names the resources.
abbrev pub IsRoot : Disk → Bool → Bytes → Bytes → Config → List Bytes → Type 0
IsRoot d strict path root c resources =
    (canonical_path d path ≡ some root)
    × ((b : _) × (d.world.read_file root ≡ some b)
        × (d.decode_config strict b ≡ some (c, resources)))

load-Circle :
    (fuel : ℕ) (d : Disk) (strict : Bool) (path root : Bytes) (c : Config) (resources : List Bytes)
    (r : RuntimeConfig)
    → IsRoot d strict path root c resources
    → Circle d strict root resources
    → load fuel d path strict ≡ loaded r
    → ⊥
unfolding load
load-Circle fuel d strict path root c resources r (at, (b, read, decoded)) circle h =
    let (l, loads, _) =
      >>=-loaded (load_resources fuel d strict root c resources) _ (rw (at, read, decoded) at h) in
    load_resources-Circle d strict fuel root c resources l loads circle

-- If every canonical path is that of one of some files, `load` never wants for fuel when it has as much
-- as there are files, whatever they include. With a circle of files among those that the root file
-- includes, at any depth, through the root file or not, it fails.
pub load_ends :
    (d : Disk) (strict : Bool) (files : List Bytes)
    → AllIn d files
    → (fuel : ℕ) (path : Bytes) → length files ≤ fuel
    → ((e : LoadError) → load fuel d path strict ≡ failed e → is_spent e ≡ false)
      × ((root : Bytes) (c : Config) (resources : List Bytes)
          → IsRoot d strict path root c resources
          → Circle d strict root resources
          → (e : LoadError) × (load fuel d path strict ≡ failed e))
load_ends d strict files all fuel path le = (
  λ e h. rw h at (load-Ends d strict files all fuel path le),
  λ root c resources is circle.
      failed-cases (load fuel d path strict)
        (λ r h. load-Circle fuel d strict path root c resources r is circle h),
)
