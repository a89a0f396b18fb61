-- ===== src/Proxy/Rewrite.antt =====
-- internal/proxy/rewrite.go: the path that a path-routed backend sees.
use mathlib.Core.List.{append-nil}
use lazywrap.Base.{
  ◌≡◌, ◌≢◌, refl, Bytes, eq_bytes, is_empty, codes, Bool, true, false, ◌||◌, ℕ, eq_bytes_iff, [],
  ◌∷◌, ◌++◌, arith, if◌then◌else◌, cut_prefix-append, trim_prefix,
}

-- `Path` and `RawPath` of `pr.Out.URL`.
pub record Url : Type 0 where
  pub path : Bytes
  pub raw_path : Bytes

-- `if p == "" || p == "/" { p = "/" }`
unfoldable pub strip : Bytes → Bytes → Bytes
unfolding trim_prefix eq_bytes
strip prefix path =
    let p = trim_prefix path prefix in if is_empty p || eq_bytes p (codes "/") then codes "/" else p

unfoldable pub rewrite : Bytes → Bool → Url → Url
unfolding strip
rewrite prefix true url = url
rewrite prefix false url = record {
  path = strip prefix url.path;
  raw_path = if is_empty url.raw_path then url.raw_path else strip prefix url.raw_path;
}

strip-append : (prefix rest : Bytes) → rest ≢ [] → strip prefix (prefix ++ rest) ≡ rest
unfolding strip
strip-append prefix [] n = absurd (n refl)
strip-append prefix (c ∷ rest) n =
    ground (arith, cut_prefix-append prefix (c ∷ rest), eq_bytes_iff (c ∷ rest) (codes "/"))

strip_self : (prefix : Bytes) → strip prefix prefix ≡ codes "/"
unfolding strip
strip_self prefix = ground (arith, cut_prefix-append prefix [], append-nil prefix)

is_empty-append : (s t : Bytes) (c : ℕ) → is_empty (s ++ (c ∷ t)) ≡ false
is_empty-append [] t c = refl
is_empty-append (d ∷ s) t c = refl

-- Below the prefix the backend sees the rest of the path. A raw path below the prefix is cut in the
-- same way, whatever its own rest is, and one that is absent stays absent. At the prefix itself, and
-- no raw path, the backend sees "/"; with `includePrefix` the request stays as it is.
pub rewrite_below :
    (prefix rest raw : Bytes) (url : Url)
    → (rewrite prefix false
          (record { path = prefix ++ (b'/' ∷ rest); raw_path = prefix ++ (b'/' ∷ raw) })
        ≡ record { path = b'/' ∷ rest; raw_path = b'/' ∷ raw })
      × (rewrite prefix false (record { path = prefix ++ (b'/' ∷ rest); raw_path = [] })
          ≡ record { path = b'/' ∷ rest; raw_path = [] })
      × (rewrite prefix false (record { path = prefix; raw_path = [] })
          ≡ record { path = codes "/"; raw_path = [] })
      × (rewrite prefix true url ≡ url)
unfolding rewrite
rewrite_below prefix rest raw url =
    let cut_path = strip-append prefix (b'/' ∷ rest) (λ e. cc) in
    (
      rw (cut_path, strip-append prefix (b'/' ∷ raw) (λ e. cc), is_empty-append prefix raw b'/')
          refl,
      rw cut_path refl,
      rw (strip_self prefix),
      refl,
    )
