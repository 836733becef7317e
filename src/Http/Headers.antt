-- ===== src/Http/Headers.antt =====
-- The headers of a request: `evhttp_add_header`, `evhttp_find_header`, `evhttp_remove_header` and
-- `evhttp_clear_headers`. The tail queue of `struct evkeyval` is the list of its keys and values, and
-- memory is granted but where an argument says that it is not.
use libevent_1_4_3_stable_le.Base.{
  ℕ, ◌+◌, ◌≡◌, refl, ap, ◌∙◌, List, [], ◌∷◌, ◌++◌, leb, ◌==◌, ◌&&◌, ◌||◌, Bool, true, false,
  if◌then◌else◌, Bool-cases, inl, inr, arith, eq→==, Option, none, some,
}
use libevent_1_4_3_stable_le.Base.Int.{ℤ, pos, minus_one}

pub record Evkeyval : Type 0 where
  pub key : List ℕ
  pub value : List ℕ

-- `tolower` of a byte, in the C locale.
unfoldable pub tolower : ℕ → ℕ
tolower c = if leb 65 c && leb c 90 then c + 32 else c

-- `strcasecmp(a, b) == 0`
unfoldable pub same_nocase : List ℕ → List ℕ → Bool
unfolding tolower
same_nocase [] [] = true
same_nocase (a ∷ s) (b ∷ t) = (tolower a == tolower b) && same_nocase s t
same_nocase s t = false

-- `strchr(s, '\\r') != NULL || strchr(s, '\\n') != NULL`
unfoldable pub has_newline : List ℕ → Bool
has_newline [] = false
has_newline (c ∷ s) = (c == 13) || (c == 10) || has_newline s

unfoldable pub find_header : List Evkeyval → List ℕ → Option (List ℕ)
unfolding same_nocase
find_header [] key = none
find_header (header ∷ headers) key =
    let later = find_header headers key in
    if same_nocase header.key key then some header.value else later

put_back : Evkeyval → Option (List Evkeyval) → Option (List Evkeyval)
put_back header none = none
put_back header (some headers) = some (header ∷ headers)

-- The headers without the first one of this key, or `none` if there is none.
unfoldable pub remove_header : List Evkeyval → List ℕ → Option (List Evkeyval)
unfolding same_nocase put_back
remove_header [] key = none
remove_header (header ∷ headers) key =
    let later = put_back header (remove_header headers key) in
    if same_nocase header.key key then some headers else later

unfoldable pub add_header : Bool → List Evkeyval → List ℕ → List ℕ → ℤ × List Evkeyval
unfolding has_newline
add_header granted headers key value =
    if has_newline value || has_newline key
    then (minus_one, headers)
    else if granted
    then (pos 0, headers ++ (record { key = key; value = value } ∷ []))
    else (minus_one, headers)

-- No header holds a line break, which would end its line.
pub record IsLegal (header : Evkeyval) : Type 0 where
  pub key : has_newline header.key ≡ false
  pub value : has_newline header.value ≡ false

abbrev pub AllLegal : List Evkeyval → Type 0
AllLegal [] = Unit
AllLegal (header ∷ headers) = IsLegal header × AllLegal headers

append-AllLegal :
    (headers : List Evkeyval) (h : Evkeyval)
    → AllLegal headers
    → IsLegal h
    → AllLegal (headers ++ (h ∷ []))
append-AllLegal [] h all legal = (legal, tt)
append-AllLegal (header ∷ headers) h (first, all) legal =
    (first, append-AllLegal headers h all legal)

-- Whatever is added, headers without line breaks stay so.
pub add_header-AllLegal :
    (granted : Bool) (headers : List Evkeyval) (key value : List ℕ)
    → AllLegal headers
    → AllLegal (add_header granted headers key value).1
unfolding add_header
add_header-AllLegal granted headers key value all =
    elim (Bool-cases (has_newline value || has_newline key)) [
      | inl bad ↦ rw bad all
      | inr good ↦ elim (Bool-cases granted) [
        | inl given ↦
            rw (good, given)
              (append-AllLegal headers _ all (record { key = ground arith; value = ground arith }))
        | inr refused ↦ rw (good, refused) all
      ]
    ]

find_header-append :
    (headers : List Evkeyval) (header : Evkeyval) (key : List ℕ)
    → find_header headers key ≡ none
    → find_header (headers ++ (header ∷ [])) key
      ≡ (if same_nocase header.key key then some header.value else none)
unfolding find_header
find_header-append [] header key h = refl
find_header-append (first ∷ headers) header key h = elim (Bool-cases (same_nocase first.key key)) [
  | inl found ↦ absurd (cc (rw found at h))
  | inr other ↦ rw other (find_header-append headers header key (rw other at h))
]

same_nocase_refl : (s : List ℕ) → same_nocase s s ≡ true
unfolding same_nocase
same_nocase_refl [] = refl
same_nocase_refl (c ∷ s) = rw (eq→== (tolower c) (tolower c) refl, same_nocase_refl s) refl

-- A key and a value without line breaks are found after they have been added to headers without the
-- key, in upper or lower case.
pub find_header-add_header :
    (headers : List Evkeyval) (key value : List ℕ)
    → has_newline key ≡ false
    → has_newline value ≡ false
    → find_header headers key ≡ none
    → find_header (add_header true headers key value).1 key ≡ some value
unfolding add_header
find_header-add_header headers key value k v absent =
    rw (v, k) (find_header-append headers _ key absent ∙ rw (same_nocase_refl key) refl)

-- What removing a header says and does: it fails if there is none to find; else a header of the key
-- stood somewhere, none of the key before it, and it alone is gone.
abbrev pub RemovedHeader : List Evkeyval → List ℕ → Option (List Evkeyval) → Type 0
RemovedHeader headers key none = find_header headers key ≡ none
RemovedHeader headers key (some left) =
    (before : List Evkeyval) × (header : Evkeyval) × (after : List Evkeyval) × (headers
      ≡ before ++ (header ∷ after))
    × (left ≡ before ++ after)
    × (find_header before key ≡ none)
    × (same_nocase header.key key ≡ true)

put_back-RemovedHeader :
    (header : Evkeyval) (headers : List Evkeyval) (key : List ℕ) (result : Option (List Evkeyval))
    → same_nocase header.key key ≡ false
    → RemovedHeader headers key result
    → RemovedHeader (header ∷ headers) key (put_back header result)
unfolding put_back find_header
put_back-RemovedHeader header headers key none other h = rw other h
put_back-RemovedHeader header headers key (some left) other
      (before, found, after, e, l, none', same) =
    (
      header ∷ before,
      found,
      after,
      ap (λ (t : List Evkeyval). header ∷ t) e,
      ap (λ (t : List Evkeyval). header ∷ t) l,
      rw other none',
      same,
    )

-- Removing a header takes out the first one of the key and no other, or fails if there is none.
pub remove_header-RemovedHeader :
    (headers : List Evkeyval) (key : List ℕ) → RemovedHeader headers key (remove_header headers key)
unfolding remove_header find_header
remove_header-RemovedHeader [] key = refl
remove_header-RemovedHeader (header ∷ headers) key =
    elim (Bool-cases (same_nocase header.key key)) [
      | inl found ↦ rw found ([], header, headers, refl, refl, refl, found)
      | inr other ↦ rw other (
          put_back-RemovedHeader header headers key (remove_header headers key) other
            (remove_header-RemovedHeader headers key))
    ]
