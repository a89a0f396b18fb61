-- ===== src/Proxy/Handler/Keys.antt =====
-- internal/proxy/handler.go: the keys of the reverse proxies tell the endpoints apart.
use lazywrap.Base.{
  ℕ, ◌≡◌, refl, sym, ap, ◌∙◌, inl, inr, Bytes, bytes_eq, eq_bytes, eq_bytes_iff, true, false, List,
  [], ◌∷◌, ◌++◌, some, arith, Bool-cases, IsIn, lookup, insert, lookup-insert, has_byte,
}
use lazywrap.Proxy.Handler.{Backend, route_key, put_all}

has_byte-append : (s t : Bytes) → has_byte 0 (s ++ (0 ∷ t)) ≡ true
unfolding has_byte
has_byte-append [] t = refl
has_byte-append (c ∷ s) t = ground (arith, has_byte-append s t)

cons_head : {c d : ℕ} {s t : Bytes} → (c ∷ s) ≡ (d ∷ t) → c ≡ d
cons_head h = cc

cons_tail : {c d : ℕ} {s t : Bytes} → (c ∷ s) ≡ (d ∷ t) → s ≡ t
cons_tail h = cc

-- Names without NUL bytes can be read off a key.
pub route_key-injective :
    (s t m n : Bytes)
    → has_byte 0 m ≡ false
    → has_byte 0 n ≡ false
    → route_key s m ≡ route_key t n
    → (s ≡ t) × (m ≡ n)
route_key-injective [] [] m n p q h = (refl, cons_tail h)
route_key-injective [] (d ∷ t) m n p q h =
    let e : m ≡ t ++ (0 ∷ n) = cons_tail h in
    let x : has_byte 0 m ≡ true = ap (has_byte 0) e ∙ has_byte-append t n in absurd (cc)
route_key-injective (c ∷ s) [] m n p q h =
    let e : s ++ (0 ∷ m) ≡ n = cons_tail h in
    let x : has_byte 0 n ≡ true = sym (ap (has_byte 0) e) ∙ has_byte-append s m in absurd (cc)
route_key-injective (c ∷ s) (d ∷ t) m n p q h =
    let (a, b) = route_key-injective s t m n p q (cons_tail h) in
    let e : c ≡ d = cons_head h in (ap (λ x. x ∷ s) e ∙ ap (λ x. d ∷ x) a, b)

module _ (k : Bytes) (b : Backend) where
  -- Every write to the key is of this value.
  abbrev pub OnlyKey : List (Bytes × Backend) → Type 0
  OnlyKey ws = (x : Backend) → IsIn (k, x) ws → x ≡ b

  put_all_kept :
      (ws m : List (Bytes × Backend))
      → OnlyKey ws
      → lookup k m ≡ some b
      → lookup k (put_all m ws) ≡ some b
  unfolding put_all
  put_all_kept [] m only e = e
  put_all_kept ((j, x) ∷ ws) m only e =
      put_all_kept ws (insert j x m) (λ y i. only y (inr i))
        (elim (Bool-cases (eq_bytes j k)) [
          | inl t ↦
              let same : j ≡ k = (eq_bytes_iff j k).0 t in
              let v : x ≡ b = only x (inl (ap (λ a. (a, x)) same)) in
              ground (arith, t, v, lookup-insert j k x m)
          | inr t ↦ ground (arith, t, e, lookup-insert j k x m)
        ])

  pub put_all-lookup :
      (ws m : List (Bytes × Backend))
      → OnlyKey ws
      → IsIn (k, b) ws
      → lookup k (put_all m ws) ≡ some b
  unfolding put_all
  put_all-lookup [] m only i = absurd i
  put_all-lookup ((j, x) ∷ ws) m only (inl e) =
      put_all_kept ws (insert j x m) (λ y i. only y (inr i))
        (lookup-insert j k x m ∙ ground (arith, eq_bytes_iff j k, ap (λ p. p.0) e, ap (λ p. p.1) e))
  put_all-lookup ((j, x) ∷ ws) m only (inr i) =
      put_all-lookup ws (insert j x m) (λ y l. only y (inr l)) i
