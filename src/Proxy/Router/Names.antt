-- ===== src/Proxy/Router/Names.antt =====
-- The name that `requestHostname` reads from a host without or with a port.
use mathlib.Core.List.{reverse, reverse-reverse, reverse-append, reverse-cons, append_assoc}
use lazywrap.Base.{
  ℕ, ◌≡◌, refl, ap, ◌∙◌, Bytes, false, [], ◌∷◌, ◌++◌, none, some, arith, ◌==◌, All, All-append,
  All-mono, is_space, trim_left, trim_right, trim_space, has_byte, cut, to_lower,
}
use lazywrap.Proxy.Router.{before_last, split_plain, split_host_port, request_hostname}

-- A byte of a name or of a port: no white space, colon or bracket.
abbrev pub IsPlain : ℕ → Type 0
IsPlain c =
    (is_space c ≡ false) × ((c == b':') ≡ false) × ((c == b'[') ≡ false) × ((c == b']') ≡ false)

abbrev NotSpace : ℕ → Type 0
NotSpace c = is_space c ≡ false

IsPlain-NotSpace : (s : Bytes) → All IsPlain s → All NotSpace s
IsPlain-NotSpace s = All-mono IsPlain NotSpace s (λ c p. p.0)

All-reverse : (P : ℕ → Type 0) (s : Bytes) → All P s → All P (reverse s)
All-reverse P [] h = tt
All-reverse P (c ∷ s) (p, h) =
    rw (reverse-cons c s) (All-append P (reverse s) (c ∷ []) (All-reverse P s h) (p, tt))

trim_left-NotSpace : (s : Bytes) → All NotSpace s → trim_left is_space s ≡ s
unfolding trim_left
trim_left-NotSpace [] h = refl
trim_left-NotSpace (c ∷ s) (p, h) = rw p refl

trim_space-NotSpace : (s : Bytes) → All NotSpace s → trim_space s ≡ s
unfolding trim_space trim_right
trim_space-NotSpace s h =
    rw (trim_left-NotSpace s h, trim_left-NotSpace (reverse s) (All-reverse NotSpace s h))
      (reverse-reverse s)

has_byte-All : (b : ℕ) (s : Bytes) → All (λ c. (c == b) ≡ false) s → has_byte b s ≡ false
unfolding has_byte
has_byte-All b [] h = refl
has_byte-All b (c ∷ s) (p, h) = rw (p, has_byte-All b s h) refl

cut-none : (b : ℕ) (s : Bytes) → All (λ c. (c == b) ≡ false) s → cut b s ≡ none
unfolding cut
cut-none b [] h = refl
cut-none b (c ∷ s) (p, h) = rw (p, cut-none b s h) refl

cut-append :
    (b : ℕ) (s t : Bytes) → All (λ c. (c == b) ≡ false) s → cut b (s ++ b ∷ t) ≡ some (s, t)
unfolding cut
cut-append b [] t h = ground arith
cut-append b (c ∷ s) t (p, h) = rw (p, cut-append b s t h) refl

before_last-none : (b : ℕ) (s : Bytes) → All (λ c. (c == b) ≡ false) s → before_last b s ≡ none
unfolding before_last
before_last-none b s h = rw (before_last, cut-none b (reverse s) (All-reverse _ s h)) refl

before_last-append :
    (b : ℕ) (s t : Bytes) → All (λ c. (c == b) ≡ false) t → before_last b (s ++ b ∷ t) ≡ some s
unfolding before_last
before_last-append b s t h =
    let turned : reverse (s ++ b ∷ t) ≡ reverse t ++ b ∷ reverse s =
      reverse-append s (b ∷ t)
      ∙ ap (λ x. x ++ reverse s) (reverse-cons b t)
      ∙ append_assoc (reverse t) (b ∷ []) (reverse s) in
    rw (before_last, turned, cut-append b (reverse t) (reverse s) (All-reverse _ t h))
      (ap some (reverse-reverse s))

module _ (name : Bytes) (plain : All IsPlain name) where
  no_colon : All (λ c. (c == b':') ≡ false) name
  no_colon = All-mono IsPlain _ name (λ c p. p.1) plain

  no_open : All (λ c. (c == b'[') ≡ false) name
  no_open = All-mono IsPlain _ name (λ c p. p.2) plain

  no_close : All (λ c. (c == b']') ≡ false) name
  no_close = All-mono IsPlain _ name (λ c p. p.3) plain

split_host_port-none : (name : Bytes) → All IsPlain name → split_host_port name ≡ none
unfolding split_host_port
split_host_port-none [] h = refl
split_host_port-none (c ∷ s) h = rw (h.0.2, before_last-none b':' (c ∷ s) (no_colon (c ∷ s) h)) refl

-- A name, a colon and a port.
abbrev pub with_port : Bytes → Bytes → Bytes
with_port name port = name ++ b':' ∷ port

-- With a property of the name and the port, and of the colon, it holds of all bytes.
with_port-All :
    (P : ℕ → Type 0) (name port : Bytes)
    → P b':'
    → All P name
    → All P port
    → All P (with_port name port)
with_port-All P name port p h k = All-append P name (b':' ∷ port) h (p, k)

split_plain-with_port :
    (name port : Bytes)
    → All IsPlain name
    → All IsPlain port
    → split_plain (with_port name port) (before_last b':' (with_port name port)) ≡ some name
split_plain-with_port name port h k =
    let opens =
      has_byte-All b'[' (with_port name port)
        (with_port-All _ name port refl (no_open name h) (no_open port k)) in
    let closes =
      has_byte-All b']' (with_port name port)
        (with_port-All _ name port refl (no_close name h) (no_close port k)) in
    rw
      (
        before_last-append b':' name port (no_colon port k),
        has_byte-All b':' name (no_colon name h),
        opens,
        closes,
      )
      refl

split_host_port-with_port :
    (name port : Bytes)
    → All IsPlain name
    → All IsPlain port
    → split_host_port (with_port name port) ≡ some name
unfolding split_host_port
split_host_port-with_port [] port h k = split_plain-with_port [] port h k
split_host_port-with_port (c ∷ s) port h k = rw (h.0.2) (split_plain-with_port (c ∷ s) port h k)

pub request_hostname-plain :
    (name : Bytes) → All IsPlain name → request_hostname name ≡ to_lower name
unfolding request_hostname
request_hostname-plain name h =
    rw (trim_space-NotSpace name (IsPlain-NotSpace name h), split_host_port-none name h) refl

pub request_hostname-with_port :
    (name port : Bytes)
    → All IsPlain name
    → All IsPlain port
    → request_hostname (with_port name port) ≡ to_lower name
unfolding request_hostname
request_hostname-with_port name port h k =
    rw
      (
        trim_space-NotSpace (with_port name port) (
            with_port-All NotSpace name port refl (IsPlain-NotSpace name h)
              (IsPlain-NotSpace port k)),
        split_host_port-with_port name port h k,
      )
      refl
