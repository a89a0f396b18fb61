-- ===== src/Config/Normalize/Owns.antt =====
-- Endpoints that took their resources one after another share none.
use mathlib.Core.Bool.{false≢true}
use lazywrap.Base.{◌≡◌, sym, ◌⊎◌, inl, inr, true, false, ℤ, IsIn, IsIn-All, Bool-cases, ◌∙◌}
use lazywrap.Config.Types.{RuntimeEndpointConfig}
use lazywrap.Config.Registry.{Registry}
use lazywrap.Config.Registry.Claims.{Resource, taken, Claims}
use lazywrap.Config.Endpoint.Claims.{uses, IsSound}

-- No port number, host, alias or path is in use by both.
abbrev pub NoShare : RuntimeEndpointConfig → RuntimeEndpointConfig → Type 0
NoShare e f = (r : Resource) → IsIn r (uses e) → IsIn r (uses f) → ⊥

-- The endpoints of `M`, which have a tag each, took what they use between `reg` and `reg'`.
pub record Owns {T : Type 0} (wrapper : ℤ) (reg reg' : Registry)
    (M : T → RuntimeEndpointConfig → Type 0) : Type 0 where
  pub free :
      (t : T) (e : RuntimeEndpointConfig)
      → M t e
      → (r : Resource) → IsIn r (uses e)
      → taken reg r ≡ false
  pub held :
      (t : T) (e : RuntimeEndpointConfig)
      → M t e
      → (r : Resource) → IsIn r (uses e)
      → taken reg' r ≡ true
  pub sound : (t : T) (e : RuntimeEndpointConfig) → M t e → IsSound wrapper e
  pub apart : (t u : T) (e f : RuntimeEndpointConfig) → M t e → M u f → (t ≡ u) ⊎ NoShare e f
  pub kept : (r : Resource) → taken reg r ≡ true → taken reg' r ≡ true

pub Owns-none :
    {T : Type 0} (wrapper : ℤ) (reg : Registry) (M : T → RuntimeEndpointConfig → Type 0)
    → ((t : T) (e : RuntimeEndpointConfig) → M t e → ⊥)
    → Owns wrapper reg reg M
Owns-none wrapper reg M never = record {
  free = λ t e m. absurd (never t e m);
  held = λ t e m. absurd (never t e m);
  sound = λ t e m. absurd (never t e m);
  apart = λ t u e f m n. absurd (never t e m);
  kept = λ r h. h;
}

module _ {T : Type 0} (wrapper : ℤ) (a b c : Registry) where
  -- A further endpoint, under the tag `t0`.
  pub Owns-more :
      (M N : T → RuntimeEndpointConfig → Type 0) (t0 : T) (e0 : RuntimeEndpointConfig)
      → ((t : T) (e : RuntimeEndpointConfig) → N t e → ((t ≡ t0) × (e ≡ e0)) ⊎ M t e)
      → Owns wrapper a b M
      → Claims b c (uses e0)
      → IsSound wrapper e0
      → Owns wrapper a c N
  Owns-more M N t0 e0 split o cl s = record {
    free = λ t e m r i. free t e (split t e m) r i;
    held = λ t e m r i. held t e (split t e m) r i;
    sound = λ t e m. sound t e (split t e m);
    apart = λ t u e f m n. apart t u e f (split t e m) (split u f n);
    kept = λ r h. cl.kept r (o.kept r h);
  }
    where
      before : (r : Resource) → IsIn r (uses e0) → taken b r ≡ false
      before r i = IsIn-All (λ q. taken b q ≡ false) r (uses e0) cl.free i

      free :
          (t : T) (e : RuntimeEndpointConfig)
          → ((t ≡ t0) × (e ≡ e0)) ⊎ M t e
          → (r : Resource) → IsIn r (uses e)
          → taken a r ≡ false
      free t e (inr m) r i = o.free t e m r i
      free t e (inl (p, q)) r i = elim (Bool-cases (taken a r)) [
        | inr x ↦ x
        | inl x ↦ cc (o.kept r x, before r (rw q at i))
      ]

      held :
          (t : T) (e : RuntimeEndpointConfig)
          → ((t ≡ t0) × (e ≡ e0)) ⊎ M t e
          → (r : Resource) → IsIn r (uses e)
          → taken c r ≡ true
      held t e (inr m) r i = cl.kept r (o.held t e m r i)
      held t e (inl (p, q)) r i = IsIn-All (λ q. taken c q ≡ true) r (uses e0) cl.held (rw q at i)

      sound :
          (t : T) (e : RuntimeEndpointConfig) → ((t ≡ t0) × (e ≡ e0)) ⊎ M t e → IsSound wrapper e
      sound t e (inr m) = o.sound t e m
      sound t e (inl (p, q)) = rw q s

      apart :
          (t u : T) (e f : RuntimeEndpointConfig)
          → ((t ≡ t0) × (e ≡ e0)) ⊎ M t e
          → ((u ≡ t0) × (f ≡ e0)) ⊎ M u f
          → (t ≡ u) ⊎ NoShare e f
      apart t u e f (inl (p, q)) (inl (p', q')) = inl (rw (p, p'))
      apart t u e f (inr m) (inr n) = o.apart t u e f m n
      apart t u e f (inl (p, q)) (inr n) =
          inr (λ r i j. false≢true (sym (before r (rw q at i)) ∙ o.held u f n r j))
      apart t u e f (inr m) (inl (p, q)) =
          inr (λ r i j. false≢true (sym (before r (rw q at j)) ∙ o.held t e m r i))

  -- Two groups, one after the other, whose tags are kept.
  pub Owns-join :
      (M N P : T → RuntimeEndpointConfig → Type 0)
      → ((t : T) (e : RuntimeEndpointConfig) → P t e → M t e ⊎ N t e)
      → Owns wrapper a b M
      → Owns wrapper b c N
      → Owns wrapper a c P
  Owns-join M N P split o p = record {
    free = λ t e m r i. free t e (split t e m) r i;
    held = λ t e m r i. held t e (split t e m) r i;
    sound = λ t e m. sound t e (split t e m);
    apart = λ t u e f m n. apart t u e f (split t e m) (split u f n);
    kept = λ r h. p.kept r (o.kept r h);
  }
    where
      free :
          (t : T) (e : RuntimeEndpointConfig)
          → M t e ⊎ N t e
          → (r : Resource) → IsIn r (uses e)
          → taken a r ≡ false
      free t e (inl m) r i = o.free t e m r i
      free t e (inr n) r i = elim (Bool-cases (taken a r)) [
        | inr x ↦ x
        | inl x ↦ cc (o.kept r x, p.free t e n r i)
      ]

      held :
          (t : T) (e : RuntimeEndpointConfig)
          → M t e ⊎ N t e
          → (r : Resource) → IsIn r (uses e)
          → taken c r ≡ true
      held t e (inl m) r i = p.kept r (o.held t e m r i)
      held t e (inr n) r i = p.held t e n r i

      sound : (t : T) (e : RuntimeEndpointConfig) → M t e ⊎ N t e → IsSound wrapper e
      sound t e (inl m) = o.sound t e m
      sound t e (inr n) = p.sound t e n

      apart :
          (t u : T) (e f : RuntimeEndpointConfig)
          → M t e ⊎ N t e
          → M u f ⊎ N u f
          → (t ≡ u) ⊎ NoShare e f
      apart t u e f (inl m) (inl n) = o.apart t u e f m n
      apart t u e f (inr m) (inr n) = p.apart t u e f m n
      apart t u e f (inl m) (inr n) =
          inr (λ r i j. false≢true (sym (p.free u f n r j) ∙ o.held t e m r i))
      apart t u e f (inr m) (inl n) =
          inr (λ r i j. false≢true (sym (p.free t e m r i) ∙ o.held u f n r j))
