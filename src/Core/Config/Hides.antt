-- ===== src/Core/Config/Hides.antt =====
-- A sanitized endpoint shows nothing of the credentials in it.
use storageprims.Prelude.{
  ◌≡◌, refl, sym, ap, ◌∙◌, arith, false, none, some, [], ◌∷◌, ◌++◌, Bytes, codes, All, Lacks,
  strip_prefix,
}
use storageprims.Core.Config.{
  scheme_end, split_scheme, split_authority, ends_authority, behind_last_at, sanitize_endpoint,
  behind_scheme, without_user,
}

split_scheme-append :
    (scheme rest : Bytes)
    → Lacks b':' scheme
    → split_scheme (scheme ++ (scheme_end ++ rest)) ≡ some (scheme ++ scheme_end, rest)
unfolding split_scheme strip_prefix
split_scheme-append [] rest l = refl
split_scheme-append (c ∷ scheme) rest (n, l) = ground (arith, n, split_scheme-append scheme rest l)

-- no byte of a user part ends the authority
abbrev pub IsUser : Bytes → Type 0
IsUser user = All (λ c. ends_authority c ≡ false) user

split_authority-append :
    (user tail : Bytes)
    → IsUser user
    → split_authority (user ++ b'@' ∷ tail)
      ≡ (let (a, r) = split_authority tail in (user ++ b'@' ∷ a, r))
unfolding split_authority
split_authority-append [] tail u = refl
split_authority-append (c ∷ user) tail (n, u) = rw (n, split_authority-append user tail u) refl

-- the host of an authority without its user part
abbrev host : Bytes → Bytes
host a = elim (behind_last_at a) [ none ↦ a | some h ↦ h ]

behind_last_at-append : (user a : Bytes) → behind_last_at (user ++ b'@' ∷ a) ≡ some (host a)
unfolding behind_last_at
behind_last_at-append [] a = ground arith
behind_last_at-append (c ∷ user) a = rw (behind_last_at-append user a) refl

-- what is shown of an endpoint with a user part
abbrev shown : Bytes → Bytes → Bytes
shown scheme tail =
    let (a, rest) = split_authority tail in (scheme ++ scheme_end) ++ codes "***@" ++ host a ++ rest

sanitize_endpoint-shown :
    (scheme user tail : Bytes)
    → Lacks b':' scheme
    → IsUser user
    → sanitize_endpoint (scheme ++ (scheme_end ++ (user ++ b'@' ∷ tail))) ≡ shown scheme tail
unfolding sanitize_endpoint
sanitize_endpoint-shown scheme user tail l u =
    let endpoint = scheme ++ (scheme_end ++ (user ++ b'@' ∷ tail)) in
    let front = scheme ++ scheme_end in
    let (a, rest) = split_authority tail in
    ap (behind_scheme endpoint) (split_scheme-append scheme (user ++ b'@' ∷ tail) l)
    ∙ ap (λ (x : Bytes × Bytes). without_user endpoint front x.1 (behind_last_at x.0))
        (split_authority-append user tail u)
    ∙ ap (without_user endpoint front rest) (behind_last_at-append user a)

-- A sanitized endpoint does not depend on the user part in front of an `@` in its authority, whatever
-- text that is: two endpoints that differ only there are shown as the same text.
pub sanitize_endpoint-hides :
    (scheme user other tail : Bytes)
    → Lacks b':' scheme
    → IsUser user
    → IsUser other
    → sanitize_endpoint (scheme ++ (scheme_end ++ (user ++ b'@' ∷ tail)))
      ≡ sanitize_endpoint (scheme ++ (scheme_end ++ (other ++ b'@' ∷ tail)))
sanitize_endpoint-hides scheme user other tail l u v =
    sanitize_endpoint-shown scheme user tail l u
    ∙ sym (sanitize_endpoint-shown scheme other tail l v)
