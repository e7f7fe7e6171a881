-- ===== src/Routes/Segments.antt =====
-- The pages that are redirected, by the last segment of their path.
use terminald.Base.{
  [], ◌∷◌, ◌++◌, true, false, ◌||◌, ◌≡◌, ◌≢◌, ◌⊎◌, ◌↔◌, inl, inr, refl, ap, ◌∙◌, arith, Bytes,
  codes, contains, ◌==◌, Bool-cases,
}
use terminald.Text.{bytes_eq, ends_with, last_segment}
use terminald.Text.Split.{bytes_eq_sound, last_segment-append, last_segment_of_lacks}
use terminald.Text.Find.{ends_with-append, ends_with_sound}
use terminald.Http.{Method, get, other}
use terminald.Routes.{path_final_segment_has_extension, is_extensionless_without_trailing_slash}

-- Neither `/auth/check` nor the websocket.
abbrev pub IsPagePath : Bytes → Type 0
IsPagePath path =
    ((ends_with path (codes "/auth/check") || bytes_eq path (codes "/auth/check")) ≡ false)
    × ((ends_with path (codes "/ws") || bytes_eq path (codes "/ws")) ≡ false)

-- The last segment is `segment`; behind a slash it is not empty.
abbrev IsLast : Bytes → Bytes → Type 0
IsLast path segment =
    (path ≡ segment) ⊎ ((folder : Bytes) × (path ≡ folder ++ b'/' ∷ segment) × (segment ≢ []))

-- The path of a page with no slash behind it, whose last segment has no dot.
abbrev pub IsBare : Bytes → Type 0
IsBare path =
    (segment : Bytes) × (contains b'/' segment ≡ false)
    × (contains b'.' segment ≡ false)
    × IsLast path segment

segment_cases :
    (s : Bytes)
    → (segment : Bytes) × (contains b'/' segment ≡ false)
      × ((s ≡ segment) ⊎ ((folder : Bytes) × (s ≡ folder ++ b'/' ∷ segment)))
segment_cases [] = ([], refl, inl refl)
segment_cases (c ∷ s) =
    let (segment, lacks, found) = segment_cases s in
    elim found [
      | inl e ↦ elim (Bool-cases (c == b'/')) [
        | inl slash ↦
            let same : c ≡ b'/' = ground arith in (segment, lacks, inr ([], rw (same, e) refl))
        | inr off ↦ (c ∷ segment, rw (off, lacks) refl, inl (ap (◌∷◌ c) e))
      ]
      | inr (folder, e) ↦ (segment, lacks, inr (c ∷ folder, ap (◌∷◌ c) e))
    ]

last_segment_of :
    (folder segment : Bytes)
    → contains b'/' segment ≡ false
    → last_segment b'/' (folder ++ b'/' ∷ segment) ≡ segment
last_segment_of folder segment h =
    last_segment-append b'/' folder segment ∙ last_segment_of_lacks b'/' segment h

segment-slash : (p s : Bytes) → s ≡ p ++ codes "/" → contains b'/' s ≡ true
segment-slash [] s e = rw e refl
segment-slash (c ∷ p) [] e = cc
segment-slash (c ∷ p) (d ∷ s) e =
    let rest : s ≡ p ++ codes "/" = cc in ground (arith, segment-slash p s rest)

no_slash : (s : Bytes) → contains b'/' s ≡ false → ends_with s (codes "/") ≡ false
no_slash s h = elim (Bool-cases (ends_with s (codes "/"))) [
  | inl e ↦
      let (p, whole) = ends_with_sound s (codes "/") e in let holds = segment-slash p s whole in cc
  | inr n ↦ n
]

no_slash_behind :
    (folder segment : Bytes)
    → contains b'/' segment ≡ false
    → segment ≢ []
    → ends_with (folder ++ b'/' ∷ segment) (codes "/") ≡ false
unfolding ends_with bytes_eq
no_slash_behind folder [] h some_byte = absurd (some_byte refl)
no_slash_behind [] (x ∷ segment) h some_byte = let rest = no_slash (x ∷ segment) h in ground arith
no_slash_behind (c ∷ []) (x ∷ segment) h some_byte =
    let rest = no_slash_behind [] (x ∷ segment) h some_byte in ground arith
no_slash_behind (c ∷ d ∷ folder) (x ∷ segment) h some_byte =
    let rest = no_slash_behind (d ∷ folder) (x ∷ segment) h some_byte in ground arith

bare_ends : (path : Bytes) → IsBare path → ends_with path (codes "/") ≡ false
bare_ends path (segment, lacks, plain, inl e) = rw e (no_slash segment lacks)
bare_ends path (segment, lacks, plain, inr (folder, e, some_byte)) =
    rw e (no_slash_behind folder segment lacks some_byte)

bare_extension : (path : Bytes) → IsBare path → path_final_segment_has_extension path ≡ false
unfolding path_final_segment_has_extension
bare_extension path (segment, lacks, plain, inl e) =
    rw (e, last_segment_of_lacks b'/' segment lacks) plain
bare_extension path (segment, lacks, plain, inr (folder, e, some_byte)) =
    rw (e, last_segment_of folder segment lacks) plain

not_root : (path : Bytes) → ends_with path (codes "/") ≡ false → bytes_eq path (codes "/") ≡ false
not_root path h = elim (Bool-cases (bytes_eq path (codes "/"))) [
  | inl e ↦
      let root = bytes_eq_sound path (codes "/") e in
      let ends = ends_with-append [] (codes "/") in absurd (let k = rw root at h in cc)
  | inr n ↦ n
]

path_final_segment_has_extension-IsBare :
    (path : Bytes)
    → ends_with path (codes "/") ≡ false
    → path_final_segment_has_extension path ≡ false
    → IsBare path
unfolding path_final_segment_has_extension
path_final_segment_has_extension-IsBare path h k =
    let (segment, lacks, found) = segment_cases path in
    elim found [
      | inl e ↦ (segment, lacks, rw (e, last_segment_of_lacks b'/' segment lacks) at k, inl e)
      | inr (folder, e) ↦ (
        segment,
        lacks,
        rw (e, last_segment_of folder segment lacks) at k,
        inr (
          folder,
          e,
          λ empty.
              let ends = ends_with-append folder (codes "/") in
              let lacking = rw (e, empty) at h in cc,
        ),
      )
    ]

-- The requests for a page that are redirected.
pub extensionless_iff :
    (path : Bytes) (method : Method)
    → IsPagePath path
    → (is_extensionless_without_trailing_slash path method ≡ true) ↔ ((method ≡ get) × IsBare path)
unfolding is_extensionless_without_trailing_slash
extensionless_iff path get page = (
  λ h. (refl, path_final_segment_has_extension-IsBare path (ground arith) (ground arith)),
  λ (_, bare). ground (arith, bare_ends path bare, bare_extension path bare, not_root path),
)
extensionless_iff path (other m) page = ((λ h. cc), λ (e, bare). cc)
