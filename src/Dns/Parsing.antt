-- ===== src/Dns/Parsing.antt =====
-- `name_parse` ends on every packet, inside its buffers.
use libevent_1_4_3_stable_le.Base.{
  ℕ, zero, suc, ◌+◌, ◌-◌, ◌*◌, ◌/◌, ◌%◌, ◌≤◌, ◌<◌, ◌≡◌, ◌⊎◌, inl, inr, refl, ap, List, [], ◌∷◌,
  ◌++◌, length, length-append, arith, ◌==◌, ltb, leb, not, Bool, true, false, if◌then◌else◌, Option,
  none, some, lt→ltb, le→leb,
}
use libevent_1_4_3_stable_le.Base.Run.{Run, ok, fault, Returns, returns, Returns-if}
use libevent_1_4_3_stable_le.Dns.{Memory, bytes_at, or_else, with_dot, name_loop, name_parse}

pub length-bytes_at : (mem : Memory) (j n : ℕ) → length (bytes_at mem j n) ≡ n
length-bytes_at mem j zero = refl
length-bytes_at mem j (suc n) = ap suc (length-bytes_at mem (j + 1) n)

-- A failure, or a name that fits with its NUL, and the index behind it, which is past `idx` and in the packet.
abbrev pub Parsed : ℕ → ℕ → ℕ → Option (ℕ × List ℕ) → Type 0
Parsed len out_len idx r =
    (r ≡ none)
    ⊎ ((e : ℕ) × (name : List ℕ) × (r ≡ some (e, name))
        × (idx < e)
        × (e ≤ len)
        × (length name < out_len))

pub length-with_dot : (out : List ℕ) → length out ≤ length (with_dot out)
length-with_dot [] = omega arith
length-with_dot (c ∷ out) = rw (length-append (c ∷ out) (b'.' ∷ [])) (omega arith)

length-appended :
    (mem : Memory) (out : List ℕ) (j n : ℕ)
    → length (with_dot out ++ bytes_at mem j n) ≡ length (with_dot out) + n
length-appended mem out j n =
    rw (length-append (with_dot out) (bytes_at mem j n), length-bytes_at mem j n) refl

module _ (mem : Memory) (size len out_len : ℕ) (spare : len + 63 ≤ size) (idx : ℕ) where
  failed : Returns (Parsed len out_len idx) (ok none)
  failed = returns none (inl refl)

  either_way :
      {run : Run (Option (ℕ × List ℕ))} (has_dot full in_place : Bool)
      → (full ≡ false → in_place ≡ true)
      → Returns (Parsed len out_len idx) run
      → Returns
          (Parsed len out_len idx)
          (if has_dot then (if full then ok none else if in_place then run else fault) else run)
  either_way false full in_place room go = go
  either_way true false in_place room go = rw (room refl) go
  either_way true true in_place room go = failed

  finished-Parsed :
      (j : ℕ) (name_end : Option ℕ) (out : List ℕ)
      → j < len
      → length out < out_len
      → ((e : ℕ) → name_end ≡ some e → (idx < e) × (e ≤ len))
      → (name_end ≡ none → idx ≤ j)
      → Returns (Parsed len out_len idx) (ok (some (or_else name_end (j + 1), out)))
  finished-Parsed j none out inside fits end start =
      let before = start refl in returns _ (inr (j + 1, out, refl, omega arith, omega arith, fits))
  finished-Parsed j (some e) out inside fits end start =
      let (past, below) = end e refl in returns _ (inr (e, out, refl, past, below, fits))

  after_jump :
      (j : ℕ) (name_end : Option ℕ)
      → j + 1 < len
      → ((e : ℕ) → name_end ≡ some e → (idx < e) × (e ≤ len))
      → (name_end ≡ none → idx ≤ j)
      → (e : ℕ) → some (or_else name_end (j + 2)) ≡ some e
      → (idx < e) × (e ≤ len)
  after_jump j none inside end start e is = let before = start refl in (ground arith, ground arith)
  after_jump j (some f) inside end start e is = end e is

  name_loop-Parsed :
      (fuel j : ℕ) (name_end : Option ℕ) (ptr_count : ℕ) (out : List ℕ)
      → (len + 1 - ptr_count) + (out_len - length out) < fuel
      → ((e : ℕ) → name_end ≡ some e → (idx < e) × (e ≤ len))
      → (name_end ≡ none → idx ≤ j)
      → Returns
          (Parsed len out_len idx)
          (name_loop mem size len out_len fuel j name_end ptr_count out)
  unfolding name_loop
  name_loop-Parsed zero j name_end ptr_count out enough end start = absurd (omega arith)
  name_loop-Parsed (suc fuel) j name_end ptr_count out enough end start =
      Returns-if (leb len j) (λ behind. failed)
        λ inside.
          let lt : j < len = ground arith in
          rw (lt→ltb j size (omega arith)) (
            Returns-if (mem j == 0)
              (λ last.
                Returns-if (leb out_len (length out)) (λ full. failed)
                  λ fits.
                    rw (lt→ltb (length out) out_len (ground arith))
                      (finished-Parsed j name_end out lt (ground arith) end start))
              (λ more.
                Returns-if (not (mem j / 64 % 4 == 0))
                  (λ ptr.
                    Returns-if (leb len (j + 1)) (λ behind. failed)
                      λ inside2.
                        let lt2 : j + 1 < len = ground arith in
                        rw (lt→ltb (j + 1) size (omega arith)) (
                          Returns-if (leb len (mem j % 64 * 256 + mem (j + 1))) (λ out_of. failed)
                            λ in_bounds.
                              Returns-if (ltb len (ptr_count + 1)) (λ too_many. failed)
                                λ few.
                                  let le : ptr_count + 1 ≤ len = ground arith in
                                  name_loop-Parsed fuel (mem j % 64 * 256 + mem (j + 1))
                                    (some (or_else name_end (j + 2))) (ptr_count + 1) out
                                    (omega arith) (after_jump j name_end lt2 end start)
                                    (λ none. absurd (cc none))))
                  (λ is_plain.
                    Returns-if (ltb 63 (mem j)) (λ long. failed)
                      λ short.
                        let few : mem j ≤ 63 = ground arith in
                        either_way (not (length out == 0)) (leb out_len (length out + 1))
                          (ltb (length out) out_len) (λ room. ground arith)
                          (Returns-if (leb out_len (length (with_dot out) + mem j)) (λ full. failed)
                            λ fits.
                              rw
                                (
                                  le→leb (j + 1 + mem j) size (omega arith),
                                  length-bytes_at mem (j + 1) (mem j),
                                  le→leb (length (with_dot out) + mem j) out_len (ground arith),
                                )
                                (name_loop-Parsed fuel (j + 1 + mem j) name_end ptr_count
                                  (with_dot out ++ bytes_at mem (j + 1) (mem j))
                                  (let grown = length-appended mem out (j + 1) (mem j) in
                                    let longer = length-with_dot out in ground arith)
                                  end (λ none. let before = start none in omega arith))))))

pub name_parse-Parsed :
    (mem : Memory) (size len out_len idx : ℕ)
    → len + 63 ≤ size
    → Returns (Parsed len out_len idx) (name_parse mem size len out_len idx)
unfolding name_parse
name_parse-Parsed mem size len out_len idx spare =
    name_loop-Parsed mem size len out_len spare idx (len + out_len + 2) idx none 0 [] (omega arith)
      (λ e is. absurd (cc is)) (λ is. omega arith)
