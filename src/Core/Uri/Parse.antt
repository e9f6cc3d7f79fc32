-- ===== src/Core/Uri/Parse.antt =====
-- What `StorageUri::parse` accepts and what it returns, against the shape of each scheme.
use storageprims.Prelude.{
  none, some, [], ◌∷◌, ◌++◌, ◌≡◌, refl, ◌≢◌, ◌⊎◌, ◌↔◌, inl, inr, arith, Bytes, codes, strip_prefix,
  split_once, Lacks, sym, ap, ◌∙◌, append-nil, split_once-append, split_once-eq-none, Option-cases,
  strip_prefix_sound, split_once_sound, split_once-none,
}
use storageprims.Core.Error.{ProviderKind, s3, gcs, azure_blob, local, ok}
use storageprims.Core.Uri.{
  StorageUri, parse_container_path, parse_azure, azure_parts, splitn, parse_local, parse,
}

-- a nonempty text up to the next slash
abbrev pub IsSegment : Bytes → Type 0
IsSegment s = (s ≢ []) × Lacks b'/' s

-- what follows a segment: nothing, or a slash and the path
abbrev pub IsTail : Bytes → Bytes → Type 0
IsTail tail path = ((tail ≡ []) × (path ≡ [])) ⊎ (tail ≡ b'/' ∷ path)

abbrev pub SpellsBucket : Bytes → StorageUri → Type 0
SpellsBucket rest u =
    (container : Bytes) × (tail : Bytes) × (u.authority ≡ none)
    × (u.container ≡ some container)
    × IsSegment container
    × IsTail tail u.path
    × (rest ≡ container ++ tail)

abbrev pub SpellsAccount : Bytes → StorageUri → Type 0
SpellsAccount rest u =
    (account : Bytes) × (container : Bytes) × (tail : Bytes) × (u.authority ≡ some account)
    × (u.container ≡ some container)
    × IsSegment account
    × IsSegment container
    × IsTail tail u.path
    × (rest ≡ account ++ (b'/' ∷ (container ++ tail)))

abbrev pub SpellsFile : Bytes → StorageUri → Type 0
SpellsFile rest u =
    (below : Bytes) × (u.authority ≡ none)
    × (u.container ≡ none)
    × (u.path ≡ b'/' ∷ below)
    × (rest ≡ u.path)

-- `rest`, the text behind the scheme, spells the fields of `u`
abbrev pub Spells : ProviderKind → Bytes → StorageUri → Type 0
Spells s3 = SpellsBucket
Spells gcs = SpellsBucket
Spells azure_blob = SpellsAccount
Spells local = SpellsFile

abbrev pub scheme : ProviderKind → Bytes
scheme s3 = codes "s3://"
scheme gcs = codes "gs://"
scheme azure_blob = codes "azb://"
scheme local = codes "file://"

pub record Denotes (uri : Bytes) (u : StorageUri) : Type 0 where
  pub kind : ProviderKind
  pub rest : Bytes
  pub is_kind : u.provider ≡ kind
  pub raw_kept : u.raw ≡ uri
  pub splits : uri ≡ scheme kind ++ rest
  pub spells : Spells kind rest u

module _ (raw rest : Bytes) (u : StorageUri) where
  parse_container_path_sound :
      (kind : ProviderKind)
      → parse_container_path raw rest kind ≡ ok u
      → (u.provider ≡ kind) × (u.raw ≡ raw) × SpellsBucket rest u
  unfolding parse_container_path
  parse_container_path_sound kind h = elim (Option-cases (split_once b'/' rest)) [
    | inl e ↦
        let h' = rw e at h in
        (
          ground arith,
          ground arith,
          (
            rest,
            [],
            ground arith,
            ground arith,
            (ground arith, split_once-none b'/' rest e),
            inl (refl, ground arith),
            sym (append-nil rest),
          ),
        )
    | inr ((a, b), e) ↦
        let found = split_once_sound b'/' rest a b e in
        let h' = rw e at h in
        (
          ground arith,
          ground arith,
          (
            a,
            b'/' ∷ b,
            ground arith,
            ground arith,
            (ground arith, found.1),
            inr (ground arith),
            found.0,
          ),
        )
  ]

  parse_local_sound :
      parse_local raw rest ≡ ok u → (u.provider ≡ local) × (u.raw ≡ raw) × SpellsFile rest u
  unfolding parse_local
  parse_local_sound h = elim (Option-cases (strip_prefix (codes "/") rest)) [
    | inl e ↦ cc (rw e at h)
    | inr (below, e) ↦
        let found = strip_prefix_sound (codes "/") rest below e in
        let h' = rw e at h in
        (
          ground arith,
          ground arith,
          (below, ground arith, ground arith, ground arith, ground arith),
        )
  ]

  parse_azure_sound :
      parse_azure raw rest ≡ ok u → (u.provider ≡ azure_blob) × (u.raw ≡ raw) × SpellsAccount rest u
  unfolding parse_azure splitn azure_parts
  parse_azure_sound h = elim (Option-cases (split_once b'/' rest)) [
    | inl e ↦ cc (rw (e, splitn) at h)
    | inr ((a, r), e) ↦ elim (Option-cases (split_once b'/' r)) [
      | inl e' ↦
          let found = split_once_sound b'/' rest a r e in
          let h' = rw (e, splitn, e', splitn) at h in
          (
            ground arith,
            ground arith,
            (
              a,
              r,
              [],
              ground arith,
              ground arith,
              (ground arith, found.1),
              (ground arith, split_once-none b'/' r e'),
              inl (refl, ground arith),
              found.0 ∙ ap (λ (t : Bytes). a ++ (b'/' ∷ t)) (sym (append-nil r)),
            ),
          )
      | inr ((c, p), e') ↦
          let found = split_once_sound b'/' rest a r e in
          let found' = split_once_sound b'/' r c p e' in
          let h' = rw (e, splitn, e', splitn) at h in
          (
            ground arith,
            ground arith,
            (
              a,
              c,
              b'/' ∷ p,
              ground arith,
              ground arith,
              (ground arith, found.1),
              (ground arith, found'.1),
              inr (ground arith),
              found.0 ∙ ap (λ (t : Bytes). a ++ (b'/' ∷ t)) found'.0,
            ),
          )
    ]
  ]

  parse_container_path_complete :
      (kind : ProviderKind)
      → u.provider ≡ kind
      → u.raw ≡ raw
      → SpellsBucket rest u
      → parse_container_path raw rest kind ≡ ok u
  unfolding parse_container_path
  parse_container_path_complete kind k r (c, t, ea, ec, (ne, la), inl (et, ep), e) =
      let bare : rest ≡ c = e ∙ rw (et, append-nil) in
      let n : split_once b'/' rest ≡ none = rw bare (split_once-eq-none b'/' c la) in ground arith
  parse_container_path_complete kind k r (c, t, ea, ec, (ne, la), inr et, e) =
      let n : split_once b'/' rest ≡ some (c, u.path) =
        rw (e, et) (split_once-append b'/' c u.path la) in
      ground arith

  parse_local_complete :
      u.provider ≡ local → u.raw ≡ raw → SpellsFile rest u → parse_local raw rest ≡ ok u
  unfolding parse_local
  parse_local_complete k r (below, ea, ec, ep, e) = ground arith

  parse_azure_complete :
      u.provider ≡ azure_blob → u.raw ≡ raw → SpellsAccount rest u → parse_azure raw rest ≡ ok u
  unfolding parse_azure splitn azure_parts
  parse_azure_complete k r (a, c, t, ea, ec, (na, la), (nc, lc), inl (et, ep), e) =
      let n : split_once b'/' rest ≡ some (a, c ++ t) =
        rw e (split_once-append b'/' a (c ++ t) la) in
      let bare : c ++ t ≡ c = rw (et, append-nil) in
      let n' : split_once b'/' (c ++ t) ≡ none = rw bare (split_once-eq-none b'/' c lc) in
      rw (n, splitn, n', splitn) (ground arith)
  parse_azure_complete k r (a, c, t, ea, ec, (na, la), (nc, lc), inr et, e) =
      let n : split_once b'/' rest ≡ some (a, c ++ t) =
        rw e (split_once-append b'/' a (c ++ t) la) in
      let n' : split_once b'/' (c ++ t) ≡ some (c, u.path) =
        rw et (split_once-append b'/' c u.path lc) in
      rw (n, splitn, n', splitn) (ground arith)

module _ (uri : Bytes) (u : StorageUri) where
  denotes :
      (kind : ProviderKind) (rest : Bytes)
      → strip_prefix (scheme kind) uri ≡ some rest
      → (u.provider ≡ kind) × (u.raw ≡ uri) × Spells kind rest u
      → Denotes uri u
  denotes kind rest e (k, r, s) = record {
    kind = kind;
    rest = rest;
    is_kind = k;
    raw_kept = r;
    splits = strip_prefix_sound (scheme kind) uri rest e;
    spells = s;
  }

  parse_sound : parse uri ≡ ok u → Denotes uri u
  unfolding parse
  parse_sound h = elim (Option-cases (strip_prefix (scheme s3) uri)) [
    | inr (rest, e) ↦ denotes s3 rest e (parse_container_path_sound uri rest u s3 (rw e at h))
    | inl e ↦ elim (Option-cases (strip_prefix (scheme gcs) uri)) [
      | inr (rest, e') ↦
          denotes gcs rest e' (parse_container_path_sound uri rest u gcs (rw (e, e') at h))
      | inl e' ↦ elim (Option-cases (strip_prefix (scheme azure_blob) uri)) [
        | inr (rest, e'') ↦
            denotes azure_blob rest e'' (parse_azure_sound uri rest u (rw (e, e', e'') at h))
        | inl e'' ↦ elim (Option-cases (strip_prefix (scheme local) uri)) [
          | inr (rest, f) ↦
              denotes local rest f (parse_local_sound uri rest u (rw (e, e', e'', f) at h))
          | inl f ↦ cc (rw (e, e', e'', f) at h)
        ]
      ]
    ]
  ]

  parse_of :
      (kind : ProviderKind) (rest : Bytes)
      → u.provider ≡ kind
      → u.raw ≡ uri
      → uri ≡ scheme kind ++ rest
      → Spells kind rest u
      → parse uri ≡ ok u
  unfolding parse
  parse_of s3 rest k r e s =
      let here : strip_prefix (scheme s3) uri ≡ some rest = rw e in
      rw here (parse_container_path_complete uri rest u s3 k r s)
  parse_of gcs rest k r e s =
      let not_s3 : strip_prefix (scheme s3) uri ≡ none = rw e in
      let here : strip_prefix (scheme gcs) uri ≡ some rest = rw e in
      rw (not_s3, here) (parse_container_path_complete uri rest u gcs k r s)
  parse_of azure_blob rest k r e s =
      let not_s3 : strip_prefix (scheme s3) uri ≡ none = rw e in
      let not_gcs : strip_prefix (scheme gcs) uri ≡ none = rw e in
      let here : strip_prefix (scheme azure_blob) uri ≡ some rest = rw e in
      rw (not_s3, not_gcs, here) (parse_azure_complete uri rest u k r s)
  parse_of local rest k r e s =
      let not_s3 : strip_prefix (scheme s3) uri ≡ none = rw e in
      let not_gcs : strip_prefix (scheme gcs) uri ≡ none = rw e in
      let not_azure : strip_prefix (scheme azure_blob) uri ≡ none = rw e in
      let here : strip_prefix (scheme local) uri ≡ some rest = rw e in
      rw (not_s3, not_gcs, not_azure, here) (parse_local_complete uri rest u k r s)

-- A text parses to a storage URI exactly when the URI keeps that text and spells it: the scheme of
-- its provider, then the nonempty slash-free segments (account and container for Azure, container
-- for S3 and GCS), then nothing or a slash and the path; for a local file, an absolute path.
pub parse_iff : (uri : Bytes) (u : StorageUri) → (parse uri ≡ ok u) ↔ Denotes uri u
parse_iff uri u =
    (parse_sound uri u, λ d. parse_of uri u d.kind d.rest d.is_kind d.raw_kept d.splits d.spells)
