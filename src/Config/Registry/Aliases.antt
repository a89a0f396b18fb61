-- ===== src/Config/Registry/Aliases.antt =====
-- The loop over the aliases of an endpoint takes each of them.
use mathlib.Core.List.{append-nil, append_assoc}
use mathlib.Core.Path.{subst}
use lazywrap.Base.{◌≡◌, refl, All-append, Bytes, Bool, true, false, List, [], ◌∷◌, ◌++◌, arith, map}
use lazywrap.Config.Endpoint.{valid, >>=-valid, normalize_host}
use lazywrap.Config.Registry.{Registry, register_unless, register_aliases}
use lazywrap.Config.Registry.Claims.{
  Resource, named, taken, Claims, Claims-append, register_host-Claims,
}

-- What the loop may skip was taken along with the rest.
abbrev pub Skips : Registry → Registry → (Bytes → Bool) → Type 0
Skips reg0 reg skips =
    (a : Bytes) → skips a ≡ true → (taken reg0 (named a) ≡ false) × (taken reg (named a) ≡ true)

register_unless-Claims :
    (skip : Bool) (label a : Bytes) (reg0 reg reg' : Registry)
    → (skip ≡ true → (taken reg0 (named a) ≡ false) × (taken reg (named a) ≡ true))
    → (rs : List Resource) → Claims reg0 reg rs
    → register_unless skip label a reg ≡ valid reg'
    → Claims reg0 reg' (rs ++ named a ∷ [])
register_unless-Claims true label a reg0 reg reg' s rs c h =
    let e : reg ≡ reg' = ground arith in
    subst (λ t. Claims reg0 t (rs ++ named a ∷ [])) e
      (record {
        free = All-append _ rs (named a ∷ []) c.free ((s refl).0, tt);
        held = All-append _ rs (named a ∷ []) c.held ((s refl).1, tt);
        kept = c.kept;
      })
register_unless-Claims false label a reg0 reg reg' s rs c h =
    Claims-append rs (named a ∷ []) c (register_host-Claims label a reg reg' h)

register_unless_kept :
    (skip : Bool) (label a : Bytes) (reg reg' : Registry) (r : Resource)
    → register_unless skip label a reg ≡ valid reg'
    → taken reg r ≡ true
    → taken reg' r ≡ true
register_unless_kept true label a reg reg' r h t = let e : reg ≡ reg' = ground arith in rw e at t
register_unless_kept false label a reg reg' r h t =
    (register_host-Claims label a reg reg' h).kept r t

-- Each alias that the loop returns is taken, beside what was taken before.
pub register_aliases-Claims :
    (skips : Bytes → Bool) (label : Bytes) (aliases out : List Bytes) (reg0 reg reg' : Registry)
    → Skips reg0 reg skips
    → (rs : List Resource) → Claims reg0 reg rs
    → register_aliases skips label aliases reg ≡ valid (out, reg')
    → Claims reg0 reg' (rs ++ map named out)
unfolding register_aliases
register_aliases-Claims skips label [] out reg0 reg reg' s rs c h =
    let e : reg ≡ reg' = ground arith in
    let o : out ≡ [] = ground arith in
    subst (λ t. Claims reg0 t (rs ++ map named out)) e (rw (o, append-nil) c)
register_aliases-Claims skips label (a ∷ more) out reg0 reg reg' s rs c h =
    let (b, _, h1) = >>=-valid (normalize_host a) _ h in
    let (reg1, e1, h2) = >>=-valid (register_unless (skips b) label b reg) _ h1 in
    let ((rest, reg2), e2, h3) = >>=-valid (register_aliases skips label more reg1) _ h2 in
    let c1 = register_unless-Claims (skips b) label b reg0 reg reg1 (s b) rs c e1 in
    let all =
      register_aliases-Claims skips label more rest reg0 reg1 reg2
        (λ x y. ((s x y).0, register_unless_kept (skips b) label b reg reg1 (named x) e1 (s x y).1))
        (rs ++ named b ∷ []) c1 e2 in
    let o : b ∷ rest ≡ out = ground arith in
    let f : reg2 ≡ reg' = ground arith in
    subst (λ t. Claims reg0 t (rs ++ map named out)) f
      (rw (← o, ← append_assoc rs (named b ∷ []) (map named rest)) all)
