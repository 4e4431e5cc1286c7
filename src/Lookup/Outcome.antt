-- ===== src/Lookup/Outcome.antt =====
-- When the search of sched.c returns, with what, and when it does not.
use ze_ospi.Base.{
  ℕ, zero, suc, ◌<◌, ◌≡◌, refl, sym, ap, ◌∙◌, ◌≢◌, true, false, none, some, List, [], ◌∷◌, arith,
  ◌==◌, eq→==, ne→==,
}
use ze_ospi.Links.{Ptr, Links, list_first, list_del, list_add_tail}
use ze_ospi.Links.Chain.{IsQueue}
use ze_ospi.Links.Delete.{list_empty_lem}
use ze_ospi.Lookup.{Search, round, rounds, first_entry, get_struct_pid}

module _ (pid : Ptr → ℕ) (wanted : ℕ) (queue : Ptr) where
  -- With the head's `next` field cleared, a round leaves it cleared.
  round-cleared :
      (s : Search)
      → queue ≢ 0
      → s.links.next queue ≡ 0
      → (round pid wanted queue s).links.next queue ≡ 0
  unfolding round list_del list_add_tail
  round-cleared s nz e = ground arith

  first_entry-cleared :
      (s : Search)
      → queue ≢ 0
      → s.links.next queue ≢ queue
      → pid (s.links.next queue) ≢ wanted
      → (first_entry pid wanted queue s).links.next queue ≡ 0
  unfolding first_entry list_del list_add_tail
  first_entry-cleared s nz ne miss = ground arith

  rounds-cleared :
      (fuel : ℕ) (first : Ptr) (s : Search)
      → queue ≢ 0
      → first ≢ 0
      → s.links.next queue ≡ 0
      → rounds pid wanted queue fuel first s ≡ none
  unfolding rounds
  rounds-cleared zero first s nz fz e = refl
  rounds-cleared (suc fuel) first s nz fz e =
      let away : (first == list_first queue s.links) ≡ false = ne→== _ _ (rw e fz) in
      rw (away, rounds)
        (rounds-cleared fuel first (round pid wanted queue s) nz fz (round-cleared s nz e))

  first_entry-hit :
      (s : Search)
      → pid (s.links.next queue) ≡ wanted
      → first_entry pid wanted queue s ≡ record s { found = true; desired = s.links.next queue }
  unfolding first_entry
  first_entry-hit s e = rw (eq→== (pid (s.links.next queue)) wanted e)

  rounds-stop :
      (fuel : ℕ) (first : Ptr) (s : Search)
      → first ≡ s.links.next queue
      → rounds pid wanted queue (suc fuel) first s ≡ some s
  unfolding rounds
  rounds-stop fuel first s e = rw (eq→== first (s.links.next queue) e, rounds)

  found_first :
      (fuel : ℕ) {current : Ptr} (desired : Ptr) {h : Links} (x : Ptr) (rest : List Ptr)
      → IsQueue h queue (x ∷ rest)
      → pid x ≡ wanted
      → pid current ≢ wanted
      → get_struct_pid pid wanted queue (suc fuel) current desired h
        ≡ some (record { found = true; desired = x; links = h })
  unfolding get_struct_pid
  found_first fuel {current} desired {h} x rest q hit miss =
      let s : Search = record { found = false; desired = desired; links = h } in
      let at : Ptr → Search = λ p. record { found = true; desired = p; links = h } in
      let e : h.next queue ≡ x = q.chain.0 in
      rw (list_empty_lem q, ne→== (pid current) wanted miss)
        (rw (first_entry-hit s (rw e hit)) (
          rounds-stop fuel (h.next queue) (record s { found = true; desired = h.next queue }) refl
          ∙ ap (λ p. some (at p)) e))

  -- The search returns what it should, and leaves every list alone, if the wanted task is the
  -- running one, if the queue is empty, or if the wanted task is the first of the queue.
  pub get_struct_pid_finds :
      (fuel : ℕ) (current desired : Ptr) {h : Links} {xs : List Ptr}
      → IsQueue h queue xs
      → 0 < fuel
      → (pid current ≡ wanted
          → get_struct_pid pid wanted queue fuel current desired h
            ≡ some (record { found = true; desired = current; links = h }))
        × (pid current ≢ wanted
            → xs ≡ []
            → get_struct_pid pid wanted queue fuel current desired h
              ≡ some (record { found = false; desired = desired; links = h }))
        × ((x : Ptr) (rest : List Ptr)
            → pid current ≢ wanted
            → xs ≡ x ∷ rest
            → pid x ≡ wanted
            → get_struct_pid pid wanted queue fuel current desired h
              ≡ some (record { found = true; desired = x; links = h }))
  unfolding get_struct_pid
  get_struct_pid_finds zero current desired q pos = absurd (omega arith)
  get_struct_pid_finds (suc fuel) current desired {h} {xs} q pos = (
    (λ mine. rw (eq→== (pid current) wanted mine) (ground arith)),
    (λ miss nil. rw (ne→== (pid current) wanted miss, list_empty_lem q, nil)),
    (λ x rest miss e hit. found_first fuel desired x rest (rw e at q) hit miss),
  )

  -- If the queue is not empty and neither the running task nor the first of the queue is the one
  -- wanted, then the search does not return, however long it runs.
  pub get_struct_pid_diverges :
      (fuel : ℕ) (current desired : Ptr) {h : Links} {x : Ptr} {xs : List Ptr}
      → IsQueue h queue (x ∷ xs)
      → queue ≢ 0
      → x ≢ 0
      → pid current ≢ wanted
      → pid x ≢ wanted
      → get_struct_pid pid wanted queue fuel current desired h ≡ none
  unfolding get_struct_pid
  get_struct_pid_diverges fuel current desired {h} {x} q nz xz miss away =
      let e : h.next queue ≡ x = q.chain.0 in
      let apart : h.next queue ≢ queue = rw e (λ c. q.apart.0 (sym c)) in
      let s : Search = record { found = false; desired = desired; links = h } in
      rw (list_empty_lem q, ne→== (pid current) wanted miss)
        (rounds-cleared fuel (h.next queue) (first_entry pid wanted queue s) nz (rw e xz)
          (first_entry-cleared s nz apart (rw e away)))
