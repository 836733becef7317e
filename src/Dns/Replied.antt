-- ===== src/Dns/Replied.antt =====
-- `reply_parse` on any packet.
use libevent_1_4_3_stable_le.Base.{
  ℕ, ◌+◌, ◌-◌, ◌*◌, ◌/◌, ◌%◌, ◌≤◌, ◌<◌, ◌≡◌, ◌⊎◌, inl, inr, refl, ap, List, ◌++◌, length,
  length-append, arith, min, ltb, ◌==◌, ◌&&◌, not, true, if◌then◌else◌, le→ltb, le→leb,
}
use libevent_1_4_3_stable_le.Base.Run.{
  Run, ok, Returns, returns, Returns-bind, Returns-if, Returns-ok_if,
}
use libevent_1_4_3_stable_le.Dns.{Memory, bytes_at}
use libevent_1_4_3_stable_le.Dns.Parsing.{length-bytes_at, name_parse-Parsed}
use libevent_1_4_3_stable_le.Dns.Served.{get16-Returns}
use libevent_1_4_3_stable_le.Dns.Reply.{
  type_a, type_ptr, type_aaaa, class_inet, max_addrs, Reply, Step, failed, next_answer, last_answer,
  get32, copy_addresses, copy_name, answer_data, answer,
}

-- The bytes of an address, in the reply to a request of this type.
abbrev pub width_of : ℕ → ℕ
width_of request_type = if request_type == type_aaaa then 16 else 4

-- The addresses are counted and fit, and so does the name with its NUL.
abbrev pub Whole : ℕ → ℕ → Reply → Type 0
Whole host_name_max request_type reply =
    (reply.addrcount ≤ max_addrs)
    × (length reply.addresses ≡ width_of request_type * reply.addrcount)
    × (length reply.name < host_name_max)
    × (0 < reply.addrcount → reply.have_answer ≡ true)

abbrev pub StepWhole : ℕ → ℕ → ℕ → Step → Type 0
StepWhole host_name_max request_type ttl_r step =
    (step ≡ failed)
    ⊎ (((j ttl : ℕ) × (reply : Reply) × (step ≡ next_answer j ttl reply)
          × (ttl ≤ ttl_r)
          × Whole host_name_max request_type reply)
        ⊎ ((ttl : ℕ) × (reply : Reply) × (step ≡ last_answer ttl reply)
            × (ttl ≤ ttl_r)
            × Whole host_name_max request_type reply))

counted_more :
    (width width' n count : ℕ) (addresses bytes : List ℕ)
    → width ≡ width'
    → length addresses ≡ width' * count
    → length bytes ≡ width * n
    → length (addresses ++ bytes) ≡ width' * (count + n)
counted_more width width' n count addresses bytes same before added =
    let split = length-append addresses bytes in
    let product : width * n ≡ width' * n = ap (λ (w : ℕ). w * n) same in
    let spread : width' * (count + n) ≡ width' * count + width' * n = omega arith in omega arith

module _ (packet : Memory) (size len host_name_max : ℕ) (spare : len + 63 ≤ size)
    (request_type : ℕ) where
  copy_addresses-Whole :
      (width j datalength ttl_r ttl : ℕ) (reply : Reply)
      → width ≡ width_of request_type
      → Whole host_name_max request_type reply
      → Returns
          (StepWhole host_name_max request_type ttl_r)
          (copy_addresses packet size len host_name_max width j datalength ttl_r ttl reply)
  unfolding copy_addresses
  copy_addresses-Whole width j datalength ttl_r ttl reply is_width (few, counted, named, answered) =
      Returns-if (not (datalength % width == 0)) (λ uneven. returns _ (inl refl))
        λ even.
          Returns-if (ltb len (j + width * min (max_addrs - reply.addrcount) (datalength / width)))
            (λ out_of. returns _ (inl refl))
            λ inside.
              let n = min (max_addrs - reply.addrcount) (datalength / width) in
              let bytes : List ℕ = bytes_at packet j (width * n) in
              let reply' : Reply = record reply {
                have_answer = true;
                addrcount = reply.addrcount + n;
                addresses = reply.addresses ++ bytes;
              } in
              let whole : Whole host_name_max request_type reply' = (
                omega arith,
                counted_more width (width_of request_type) n reply.addrcount reply.addresses bytes
                    is_width counted (length-bytes_at packet j (width * n)),
                named,
                λ some'. refl,
              ) in
              rw
                (
                  le→leb (j + width * n) size (ground arith),
                  le→ltb 32 (reply.addrcount + n) (omega arith),
                )
                (Returns-ok_if (last_answer (min ttl_r ttl) reply')
                  (next_answer (j + width * n) (min ttl_r ttl) reply')
                  (reply.addrcount + n == max_addrs)
                  (λ full. inr (inr (min ttl_r ttl, reply', refl, omega arith, whole)))
                  (λ more.
                    inr (inl (j + width * n, min ttl_r ttl, reply', refl, omega arith, whole))))

  copy_name-Whole :
      (j ttl_r ttl : ℕ) (reply : Reply)
      → Whole host_name_max request_type reply
      → Returns
          (StepWhole host_name_max request_type ttl_r)
          (copy_name packet size len host_name_max j ttl_r ttl reply)
  unfolding copy_name
  copy_name-Whole j ttl_r ttl reply (few, counted, named, answered) =
      Returns-bind (name_parse-Parsed packet size len host_name_max j spare) λ parsed is_parsed.
        elim is_parsed [
          | inl no_name ↦ rw no_name (returns _ (inl refl))
          | inr (k, name, read, past, below, fits) ↦ rw read (
              returns _ (
                inr (
                  inr (
                    min ttl_r ttl,
                    record reply { have_answer = true; name = name },
                    refl,
                    omega arith,
                    (few, counted, fits, λ some'. refl),
                  ))))
        ]

  answer_data-Whole :
      (type class j datalength ttl_r ttl : ℕ) (reply : Reply)
      → Whole host_name_max request_type reply
      → Returns (StepWhole host_name_max request_type ttl_r) (
          answer_data packet size len host_name_max request_type type class j datalength ttl_r ttl
            reply)
  unfolding answer_data
  answer_data-Whole type class j datalength ttl_r ttl reply whole =
      Returns-if (type == type_a && class == class_inet)
        (λ a.
          Returns-if (not (request_type == type_a)) (λ other. skip)
            λ asked. copy_addresses-Whole 4 j datalength ttl_r ttl reply (ground arith) whole)
        λ not_a.
          Returns-if (type == type_ptr && class == class_inet)
            (λ ptr.
              Returns-if (not (request_type == type_ptr)) (λ other. skip)
                λ asked. copy_name-Whole j ttl_r ttl reply whole)
            λ not_ptr.
              Returns-if (type == type_aaaa && class == class_inet)
                (λ aaaa.
                  Returns-if (not (request_type == type_aaaa)) (λ other. skip)
                    λ asked.
                      copy_addresses-Whole 16 j datalength ttl_r ttl reply (ground arith) whole)
                (λ neither. skip)
    where
      skip :
          Returns
            (StepWhole host_name_max request_type ttl_r)
            (ok (next_answer (j + datalength) ttl_r reply))
      skip = returns _ (inr (inl (j + datalength, ttl_r, reply, refl, omega arith, whole)))

  get32-Returns :
      {P : Step → Type 0} (j : ℕ) {next : ℕ → Run Step}
      → P failed
      → ((x : ℕ) → Returns P (next x))
      → Returns P (get32 packet size len host_name_max j (ok failed) next)
  get32-Returns j err go =
      Returns-if (ltb len (j + 4)) (λ behind. returns _ err)
        λ inside. rw (le→ltb size (j + 4) (ground arith)) (go _)

  pub answer-Whole :
      (j ttl_r : ℕ) (reply : Reply)
      → Whole host_name_max request_type reply
      → Returns
          (StepWhole host_name_max request_type ttl_r)
          (answer packet size len host_name_max request_type j ttl_r reply)
  unfolding answer
  answer-Whole j ttl_r reply whole =
      Returns-bind (name_parse-Parsed packet size len 256 j spare) λ parsed is_parsed.
        elim is_parsed [
          | inl no_name ↦ rw no_name (returns _ (inl refl))
          | inr (k, name, read, past, below, fits) ↦ rw read (
              get16-Returns packet size len k (omega arith) (returns _ (inl refl)) λ in1 type.
                get16-Returns packet size len (k + 2) (omega arith) (returns _ (inl refl))
                  λ in2 class. get32-Returns (k + 4) (inl refl) λ ttl.
                    get16-Returns packet size len (k + 8) (omega arith) (returns _ (inl refl))
                      λ in3 datalength.
                        answer_data-Whole type class (k + 10) datalength ttl_r ttl reply whole)
        ]
