-- ===== src/Buffer/Line.antt =====
-- `evbuffer_readline` takes a line and its terminator, `\n`, `\r`, `\r\n` or `\n\r`.
use libevent_1_4_3_stable_le.Base.{
  ℕ, suc, ◌+◌, ◌-◌, ◌%◌, ◌^◌, ◌≤◌, ◌<◌, ◌≡◌, refl, ap, ◌∙◌, ◌⊎◌, inl, inr, List, [], ◌∷◌, ◌++◌,
  take, drop, length, length-append, arith, ltb, leb, lt→ltb, le→ltb, eq→==, ne→==, ◌==◌, not, ◌&&◌,
  ◌||◌, Bool, true, false, if◌then◌else◌, Bool-cases, Option, none, some, get_or,
}
use libevent_1_4_3_stable_le.Base.Slices.{drop-append_add, get_or-append_add, take-append_length}
use native.Mathlib.Nat.{add-zero}
use libevent_1_4_3_stable_le.Base.Run.{
  Run, ok, fault, diverges, Returns, returns, Returns-if, ◌>>=◌,
}
use libevent_1_4_3_stable_le.Base.Words.{u32_mod, add_u32}
use libevent_1_4_3_stable_le.Buffer.{Evbuffer, read_at, drain}
use libevent_1_4_3_stable_le.Buffer.Memory.{content, length-content, IsValid, read_at-ok}
use libevent_1_4_3_stable_le.Buffer.Drain.{drain-Drained}

abbrev pub is_eol : ℕ → Bool
is_eol c = c == b'\r' || c == b'\n'

-- The first `for` loop: the index of the first line terminator, or the length.
unfoldable pub scan_eol : List ℕ → ℕ
scan_eol [] = 0
scan_eol (c ∷ rest) = if is_eol c then 0 else suc (scan_eol rest)

-- How many bytes the terminator at `i` takes.
unfoldable pub eol_length : List ℕ → ℕ → ℕ
eol_length bytes i =
    let fch = get_or bytes i 0 in
    let sch = get_or bytes (i + 1) 0 in
    if ltb i (length bytes - 1) then (if is_eol sch && not (sch == fch) then 2 else 1) else 1

-- What `readline` does with the bytes of the buffer. `granted` says whether `malloc` returns memory for
-- the line, and `none` is a null pointer.
unfoldable pub take_line : Bool → Evbuffer → List ℕ → Option (List ℕ) × Evbuffer
take_line granted b bytes =
    let i = scan_eol bytes in
    let line = some (take i bytes) in
    let found =
      if granted then (line, drain b ((i + eol_length bytes i) % u32_mod)) else (none, drain b i) in
    if i == length bytes then (none, b) else found

-- The line, and the buffer after the call. The index is an `unsigned`: it never comes to a terminator, or to a
-- length, of 2^32 or more, and there are then `(i + 1) % 2^32` bytes for the line and its NUL.
unfoldable pub readline : Bool → Evbuffer → Run (Option (List ℕ) × Evbuffer)
unfolding read_at
readline granted b = do
  bytes ← read_at b.block b.buffer b.off
  let i = scan_eol bytes
  let taken : Run (Option (List ℕ) × Evbuffer) =
      if granted && not (i == length bytes) && leb (add_u32 i 1) i
      then fault
      else ok (take_line granted b bytes)
  if leb u32_mod i then diverges else taken

-- One terminator, alone or followed by the other one.
unfoldable pub is_terminator : List ℕ → Bool
is_terminator [] = false
is_terminator (c ∷ []) = is_eol c
is_terminator (c ∷ d ∷ []) = is_eol c && is_eol d && not (d == c)
is_terminator (c ∷ d ∷ e ∷ rest) = false

-- No byte ends a line.
abbrev pub NoEol : List ℕ → Type 0
NoEol [] = Unit
NoEol (c ∷ rest) = (is_eol c ≡ false) × NoEol rest

-- What `scan_eol` finds in `bytes`.
Scanned : List ℕ → Type 0
Scanned bytes =
    ((scan_eol bytes ≡ length bytes) × NoEol bytes)
    ⊎ ((line : List ℕ) × (c : ℕ) × (rest : List ℕ) × (bytes ≡ line ++ (c ∷ rest))
        × NoEol line
        × (is_eol c ≡ true)
        × (scan_eol bytes ≡ length line))

scan_cons : (c : ℕ) (bytes : List ℕ) → is_eol c ≡ false → Scanned bytes → Scanned (c ∷ bytes)
unfolding scan_eol Scanned
scan_cons c bytes plain (inl (all, none')) = inl (rw plain (ap suc all), (plain, none'))
scan_cons c bytes plain (inr (line, d, rest, split, clear, ends, at)) =
    inr (c ∷ line, d, rest, ap (◌∷◌ c) split, (plain, clear), ends, rw plain (ap suc at))

scan_eol-Scanned : (bytes : List ℕ) → Scanned bytes
unfolding scan_eol Scanned
scan_eol-Scanned [] = inl (refl, tt)
scan_eol-Scanned (c ∷ bytes) = elim (Bool-cases (is_eol c)) [
  | inl ends ↦ inr ([], c, bytes, refl, tt, ends, rw ends)
  | inr plain ↦ scan_cons c bytes plain (scan_eol-Scanned bytes)
]

-- What one call of `readline` finds in `bytes`: a line, its terminator and the bytes that are left,
-- where the terminator is the longest one there.
pub record LineOf (bytes line rest : List ℕ) : Type 0 where
  pub terminator : List ℕ
  pub split : bytes ≡ line ++ (terminator ++ rest)
  pub clear : NoEol line
  pub ends : is_terminator terminator ≡ true
  pub longest :
      (d : ℕ) (more : List ℕ) → rest ≡ d ∷ more → is_terminator (terminator ++ (d ∷ [])) ≡ false

-- The length of the terminator that begins with `c`, before the bytes `after`.
terminator_length : ℕ → List ℕ → ℕ
terminator_length c [] = 1
terminator_length c (d ∷ after) = if is_eol d && not (d == c) then 2 else 1

eol_length-append :
    (line : List ℕ) (c : ℕ) (after : List ℕ)
    → eol_length (line ++ (c ∷ after)) (length line) ≡ terminator_length c after
unfolding eol_length terminator_length
eol_length-append line c [] =
    let last : ltb (length line) (length (line ++ (c ∷ [])) - 1) ≡ false =
      le→ltb _ _ (omega (arith, length-append line (c ∷ []))) in
    rw last
eol_length-append line c (d ∷ after) =
    let inner : ltb (length line) (length (line ++ (c ∷ d ∷ after)) - 1) ≡ true =
      lt→ltb _ _ (omega (arith, length-append line (c ∷ d ∷ after))) in
    let fch : get_or (line ++ (c ∷ d ∷ after)) (length line) 0 ≡ c =
      rw add-zero at (get_or-append_add (length line) 0 line (c ∷ d ∷ after) 0 refl) in
    let sch : get_or (line ++ (c ∷ d ∷ after)) (length line + 1) 0 ≡ d =
      get_or-append_add (length line) 1 line (c ∷ d ∷ after) 0 refl in
    rw (inner, fch, sch)

-- How the line and the terminator that begins with `c` are cut off.
cut-LineOf :
    (line : List ℕ) (c : ℕ) (after : List ℕ)
    → NoEol line
    → is_eol c ≡ true
    → LineOf (line ++ (c ∷ after)) line (drop (terminator_length c after) (c ∷ after))
unfolding terminator_length is_terminator
cut-LineOf line c [] clear ends = record {
  terminator = c ∷ [];
  split = refl;
  clear = clear;
  ends = ends;
  longest = λ d more e. cc;
}
cut-LineOf line c (d ∷ after) clear ends = elim (Bool-cases (is_eol d && not (d == c))) [
  | inl two ↦ rw two (record {
    terminator = c ∷ d ∷ [];
    split = refl;
    clear = clear;
    ends = rw (ends, two);
    longest = λ e more same. refl;
  })
  | inr one ↦ rw one (record {
    terminator = c ∷ [];
    split = refl;
    clear = clear;
    ends = ends;
    longest = λ e more same. let head : e ≡ d = cc in rw (head, ends, one);
  })
]

-- `readline` returns the first line of the buffer and takes it and its terminator off the front, or
-- returns null, and leaves the buffer, if no byte of it ends a line.
abbrev pub ReadLine : Evbuffer → Option (List ℕ) × Evbuffer → Type 0
ReadLine b (found, c) =
    ((found ≡ none) × (c ≡ b) × NoEol (content b))
    ⊎ ((line : List ℕ) × (found ≡ some line) × IsValid c × LineOf (content b) line (content c))

terminator_length-le : (c : ℕ) (after : List ℕ) → terminator_length c after ≤ suc (length after)
unfolding terminator_length
terminator_length-le c [] = omega arith
terminator_length-le c (d ∷ after) = ground arith

scan_eol-le : (bytes : List ℕ) → scan_eol bytes ≤ length bytes
unfolding scan_eol
scan_eol-le [] = omega arith
scan_eol-le (c ∷ bytes) = ground (arith, scan_eol-le bytes)

take_line-ReadLine :
    (b : Evbuffer) (bytes : List ℕ)
    → IsValid b
    → content b ≡ bytes
    → Scanned bytes
    → length bytes < 2 ^ 32
    → ReadLine b (take_line true b bytes)
unfolding take_line Scanned
take_line-ReadLine b bytes v held (inl (all, clear)) small =
    rw (eq→== (scan_eol bytes) (length bytes) all) (inl (refl, refl, rw held clear))
take_line-ReadLine b bytes v held (inr (line, c, rest, split, clear, ends, at)) small =
    let size = ap length split ∙ length-append line (c ∷ rest) in
    let n = length line + terminator_length c rest in
    let no_wrap : (length line + terminator_length c rest) % u32_mod ≡ n =
      omega (arith, terminator_length-le c rest) in
    let d = drain-Drained b n v in
    let left : content (drain b n) ≡ drop (terminator_length c rest) (c ∷ rest) =
      d.bytes
      ∙ ap (drop n) (held ∙ split)
      ∙ drop-append_add (length line) (terminator_length c rest) line (c ∷ rest) refl in
    rw
      (
        at,
        ne→== (length line) (length bytes) (omega arith),
        split,
        take-append_length (length line) line (c ∷ rest) refl,
        eol_length-append line c rest,
        no_wrap,
      )
      (inr (line, refl, d.valid, rw (left, held, split) (cut-LineOf line c rest clear ends)))

-- For a valid buffer of less than 2^32 bytes, and with memory granted, `readline` returns. It gives the first line and takes it
-- and its terminator off the front, or gives null and leaves the buffer, if no byte of it ends a line.
pub readline-ReadLine :
    (b : Evbuffer) → IsValid b → b.off < 2 ^ 32 → Returns (ReadLine b) (readline true b)
unfolding readline content
readline-ReadLine b v small =
    let bytes = content b in
    let size = length-content b v in
    let before = scan_eol-le bytes in
    rw (read_at-ok b.block b.buffer b.off (omega (arith, v.placed, v.sized, v.fits))) (
      Returns-if (leb u32_mod (scan_eol bytes)) (λ far. absurd (ground arith))
        (λ near.
          Returns-if
            (true
              && not (scan_eol bytes == length bytes)
              && leb (add_u32 (scan_eol bytes) 1) (scan_eol bytes))
            (λ wraps. absurd (ground arith))
            (λ fine.
              returns _
                (take_line-ReadLine b bytes v refl (scan_eol-Scanned bytes) (omega arith)))))
