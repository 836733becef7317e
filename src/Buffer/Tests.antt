-- ===== src/Buffer/Tests.antt =====
-- Runs of the buffer on small blocks, and its theorems at such inputs.
use libevent_1_4_3_stable_le.Base.{
  ℕ, ◌+◌, ◌-◌, ◌^◌, ◌<◌, ◌≡◌, refl, List, [], ◌∷◌, take, drop, arith, true, false, some,
}
use libevent_1_4_3_stable_le.Base.Run.{Run, ok, diverges, ◌>>=◌, Returns}
use libevent_1_4_3_stable_le.Base.Int.{pos}
use libevent_1_4_3_stable_le.Buffer.{Evbuffer, Allocator, expand, store, add, drain}
use libevent_1_4_3_stable_le.Buffer.Memory.{content, IsValid}
use libevent_1_4_3_stable_le.Buffer.Expand.{
  Expanded, expand-Expanded, expand-wraps, expand-diverges,
}
use libevent_1_4_3_stable_le.Buffer.Add.{AddResult, add-AddResult}
use libevent_1_4_3_stable_le.Buffer.Move.{Moved, add_buffer, add_buffer-Moved}
use libevent_1_4_3_stable_le.Buffer.Line.{
  ReadLine, readline, take_line, scan_eol, eol_length, readline-ReadLine,
}
use libevent_1_4_3_stable_le.Buffer.Search.{FirstAt, bytes_eq, find, find-FirstAt}
use libevent_1_4_3_stable_le.Buffer.Io.{read_size, Received, read, read-Received}

-- Six bytes, two into a block of ten.
abbrev sample : Evbuffer
sample = record {
  block = 0 ∷ 0 ∷ 1 ∷ 2 ∷ 13 ∷ 10 ∷ 1 ∷ 3 ∷ 0 ∷ 0 ∷ [];
  buffer = 2;
  misalign = 2;
  totallen = 10;
  off = 6;
  cb = true;
  calls = [];
}

abbrev fresh : Evbuffer
fresh = record {
  block = [];
  buffer = 0;
  misalign = 0;
  totallen = 0;
  off = 0;
  cb = false;
  calls = [];
}

abbrev generous : Allocator
generous = record { grants = λ n. true; junk = λ i. 0 }

sample-IsValid : IsValid sample
sample-IsValid = record { placed = refl; sized = refl; fits = omega arith; bounded = omega arith }

fresh-IsValid : IsValid fresh
fresh-IsValid = record { placed = refl; sized = refl; fits = omega arith; bounded = omega arith }

-- Three more bytes fit once the block has been realigned.
abbrev session : Run (List ℕ × List (ℕ × ℕ))
session = do
  (_, b) ← add generous sample (7 ∷ 8 ∷ 9 ∷ [])
  let c = drain b 5
  ok (take c.off (drop c.buffer c.block), c.calls)

session_result : session ≡ ok (3 ∷ 7 ∷ 8 ∷ 9 ∷ [], (6, 9) ∷ (9, 4) ∷ [])
unfolding add expand store drain
session_result = refl

line_result : readline true sample ≡ ok (some (1 ∷ 2 ∷ []), drain sample 4)
unfolding readline take_line scan_eol eol_length
line_result = refl

find_result : find sample (1 ∷ 3 ∷ []) ≡ ok (some 4)
unfolding find bytes_eq
find_result = refl

expand-Expanded_example : Returns (Expanded generous sample 3) (expand generous sample 3)
expand-Expanded_example = expand-Expanded generous sample 3 sample-IsValid (omega arith)

expand-wraps_example :
    (expand generous sample (2 ^ 64 - 1) ≡ ok (pos 0, sample)) × (10 < 2 + 6 + (2 ^ 64 - 1))
expand-wraps_example =
    expand-wraps generous sample (2 ^ 64 - 1) sample-IsValid (omega arith) (omega arith)

expand-diverges_example : expand generous fresh (2 ^ 63 + 1) ≡ diverges
expand-diverges_example =
    expand-diverges generous fresh (2 ^ 63 + 1) 55 fresh-IsValid refl (omega arith) (omega arith)
      (omega arith)

add-AddResult_example : Returns (AddResult generous sample (7 ∷ [])) (add generous sample (7 ∷ []))
add-AddResult_example = add-AddResult generous sample (7 ∷ []) sample-IsValid (omega arith)

add_buffer-Moved_example :
    Returns (Moved generous sample sample) (add_buffer generous sample sample)
add_buffer-Moved_example =
    add_buffer-Moved generous sample sample sample-IsValid sample-IsValid (omega arith)

readline-ReadLine_example : Returns (ReadLine sample) (readline true sample)
readline-ReadLine_example = readline-ReadLine sample sample-IsValid (omega arith)

find-FirstAt_example : Returns (FirstAt (1 ∷ 3 ∷ []) (content sample) 0) (find sample (1 ∷ 3 ∷ []))
find-FirstAt_example = find-FirstAt sample 1 (3 ∷ []) sample-IsValid

read-Received_example :
    Returns
      (Received sample (4 ∷ 5 ∷ []))
      (read generous (some 2) (some (4 ∷ 5 ∷ [])) sample (pos 8))
unfolding read_size
read-Received_example =
    read-Received generous (some 2) (4 ∷ 5 ∷ []) sample (pos 8) (λ k. refl) sample-IsValid
      (omega arith) (omega arith)
