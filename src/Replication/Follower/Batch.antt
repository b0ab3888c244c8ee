-- ===== src/Replication/Follower/Batch.antt =====
-- The batches and the sync responses of replication/follower.rs, against the same reference.
use wolf_scale.Base.{
  ℕ, ◌<◌, ◌≡◌, refl, Bool, true, false, List, [], ◌∷◌, ◌++◌, inl, inr, arith, leb, ltb, ◌≤◌, ap,
  sym, ◌∙◌, ◌&&◌, if◌then◌else◌, String, append_assoc, append-nil, Bool-cases,
}
use mathlib.Core.Path.{subst}
use wolf_scale.Error.{Error, Result, ok, err}
use wolf_scale.Wal.Entry.{WalEntry, LogEntry}
use wolf_scale.Replication.Protocol.{Message, append_entries_response}
use wolf_scale.State.Tracker.{execute, set_last_applied_lsn}
use wolf_scale.Replication.Follower.{
  FollowerNode, ReplicationBatch, lsn_of, max_lsn, sync_from, handle_sync_response,
  handle_sync_tail, process_from, process_batch_background, request_sync, periodic_acks, send_acks,
  finish_batch,
}
use wolf_scale.Replication.Follower.Apply.{
  fresh, reach, Ascending, replay, end, fresh_nothing, fresh_all, reach-fresh-le,
  process_from-fresh, reach-le,
}

max_lsn-last : (n : ℕ) (e : WalEntry) (es : List WalEntry) → max_lsn (e ∷ es) ≡ reach n (e ∷ es)
unfolding reach
max_lsn-last n e [] = refl
max_lsn-last n e (f ∷ es) = max_lsn-last (lsn_of e) f es

max_lsn-reach : (es : List WalEntry) → max_lsn es ≡ reach 0 es
unfolding reach
max_lsn-reach [] = refl
max_lsn-reach (e ∷ es) = max_lsn-last 0 e es

-- The acknowledgements of some LSNs
unfoldable pub acks_to : ReplicationBatch → String → List ℕ → List (String × Message)
acks_to batch node_id [] = []
acks_to batch node_id (n ∷ ns) =
    (batch.leader_address, append_entries_response node_id batch.term true n)
    ∷ acks_to batch node_id ns

acks_to-append :
    (batch : ReplicationBatch) (node_id : String) (ns ms : List ℕ)
    → acks_to batch node_id (ns ++ ms) ≡ acks_to batch node_id ns ++ acks_to batch node_id ms
unfolding acks_to
acks_to-append batch node_id [] ms = refl
acks_to-append batch node_id (n ∷ ns) ms =
    ap (λ l. (batch.leader_address, append_entries_response node_id batch.term true n) ∷ l)
      (acks_to-append batch node_id ns ms)

-- LSNs that go up from above one on, none of them above another
unfoldable pub AscendsTo : ℕ → ℕ → List ℕ → Type 0
AscendsTo low high [] = Unit {0}
AscendsTo low high (n ∷ ns) = (low < n) × (n ≤ high) × AscendsTo n high ns

closed_choice : {A : Type 0} (b : Bool) (x y : A) → b ≡ false → (if b then x else y) ≡ y
closed_choice b x y e = simp e refl

module _ {D : Type 0} (execute_entry : LogEntry → D → Result (Unit {0}) × D) where
  send_acks-sent :
      (batch : ReplicationBatch) (ns : List ℕ) (s : FollowerNode D)
      → s.closed ≡ false
      → ((send_acks execute_entry batch ns s).sent ≡ s.sent ++ acks_to batch s.node_id ns)
        × ((send_acks execute_entry batch ns s).executor ≡ s.executor)
        × ((send_acks execute_entry batch ns s).last_applied_lsn ≡ s.last_applied_lsn)
        × ((send_acks execute_entry batch ns s).node_id ≡ s.node_id)
        × ((send_acks execute_entry batch ns s).closed ≡ false)
  unfolding send_acks acks_to
  send_acks-sent batch [] s opened = (sym (append-nil s.sent), refl, refl, refl, opened)
  send_acks-sent batch (n ∷ ns) s opened =
      let a : String × Message =
        (batch.leader_address, append_entries_response s.node_id batch.term true n) in
      let s' : FollowerNode D = record s { sent = s.sent ++ (a ∷ []) } in
      let (told, db, last, id, still) = send_acks-sent batch ns s' opened in
      let open_choice = closed_choice s.closed s s' opened in
      (
        ap (λ t. (send_acks execute_entry batch ns t).sent) open_choice
            ∙ told
            ∙ append_assoc s.sent (a ∷ []) (acks_to batch s.node_id ns),
        ap (λ t. (send_acks execute_entry batch ns t).executor) open_choice ∙ db,
        ap (λ t. (send_acks execute_entry batch ns t).last_applied_lsn) open_choice ∙ last,
        ap (λ t. (send_acks execute_entry batch ns t).node_id) open_choice ∙ id,
        ap (λ t. (send_acks execute_entry batch ns t).closed) open_choice ∙ still,
      )

  -- The progress after an entry, and where it leads, stay below a bound.
  progress_bound :
      (e : WalEntry) (es : List WalEntry) (progress high : ℕ)
      → Ascending (lsn_of e) es
      → reach progress (fresh progress (e ∷ es)) ≤ high
      → progress ≤ high
      → let next = if leb (lsn_of e) progress then progress else lsn_of e in
        (reach next (fresh next es) ≤ high) × (next ≤ high)
  unfolding reach fresh
  progress_bound e es progress high up h b = elim (Bool-cases (leb (lsn_of e) progress)) [
    | inl old ↦
        let skipped : ltb progress (lsn_of e) ≡ false = ground (arith, old) in
        simp old (simp skipped at h, b)
    | inr new ↦
        let kept : ltb progress (lsn_of e) ≡ true = ground (arith, new) in
        let all = fresh_all progress (lsn_of e) es up (ground (arith, new)) in
        let rest = fresh_all (lsn_of e) (lsn_of e) es up (omega arith) in
        let bound : reach (lsn_of e) es ≤ high =
          subst (λ l. reach (lsn_of e) l ≤ high) all (simp kept at h) in
        simp new (
          subst (λ l. reach (lsn_of e) l ≤ high) (sym rest) bound,
          omega (arith, bound, reach-le (lsn_of e) es up),
        )
  ]

  periodic_acks-AscendsTo :
      (ticks : List Bool) (es : List WalEntry) (k progress acked high : ℕ)
      → Ascending k es
      → reach progress (fresh progress es) ≤ high
      → progress ≤ high
      → AscendsTo acked high (periodic_acks execute_entry ticks es progress acked)
  unfolding periodic_acks AscendsTo Ascending reach fresh
  periodic_acks-AscendsTo [] es k progress acked high up h b = tt
  periodic_acks-AscendsTo (fires ∷ ticks) [] k progress acked high up h b =
      elim (Bool-cases (fires && ltb acked progress)) [
        | inl e ↦ simp e (ground (arith, e), b, tt)
        | inr e ↦ simp e tt
      ]
  periodic_acks-AscendsTo (fires ∷ ticks) (e ∷ es) k progress acked high (a, up) h b =
      let next = if leb (lsn_of e) progress then progress else lsn_of e in
      let (h', b') = progress_bound e es progress high up h b in
      elim (Bool-cases (fires && ltb acked progress)) [
        | inl f ↦ simp f (
          ground (arith, f),
          b,
          periodic_acks-AscendsTo ticks es (lsn_of e) next progress high up h' b',
        )
        | inr f ↦ simp f (periodic_acks-AscendsTo ticks es (lsn_of e) next acked high up h' b')
      ]

  process_from-keep :
      (k n : ℕ) (es : List WalEntry) (db : D)
      → Ascending k es
      → process_from execute_entry es (n, db)
        ≡ (reach n (fresh n es), replay execute_entry (fresh n es) db)
  unfolding process_from reach fresh replay Ascending
  process_from-keep k n [] db a = refl
  process_from-keep k n (e ∷ es) db (a, above) = ground (
    arith,
    process_from-keep (lsn_of e) n es db above,
    process_from-fresh execute_entry (lsn_of e) es (execute_entry e.entry db).1 above,
    fresh_all n (lsn_of e) es above,
  )

  finished :
      (now : ℕ) (batch : ReplicationBatch) (highest : ℕ) (db : D) (t : FollowerNode D)
      → t.closed ≡ false
      → ((finish_batch execute_entry now batch highest db t).executor ≡ db)
        × ((finish_batch execute_entry now batch highest db t).last_applied_lsn ≡ highest)
        × ((finish_batch execute_entry now batch highest db t).sent
            ≡ t.sent ++ acks_to batch t.node_id (highest ∷ []))
  unfolding finish_batch set_last_applied_lsn execute acks_to
  finished now batch highest db t opened = ground (arith, opened)

  -- A batch in ascending order, with the channel open: the entries above what was applied are
  -- executed in order, whatever each returns, and the last of their LSNs is the applied one. Wherever
  -- the timer of the periodic acknowledgements fires, each round of their task taken as one step, what
  -- is sent is acknowledgements, the last one of that LSN, and the LSNs before it go up and are not
  -- above it.
  pub batch_replays :
      (now : ℕ) (batch : ReplicationBatch) (ticks : List Bool) (s : FollowerNode D)
      → Ascending 0 batch.entries
      → s.closed ≡ false
      → let s' = process_batch_background execute_entry now batch ticks s in
        (s'.executor ≡ replay execute_entry (fresh s.last_applied_lsn batch.entries) s.executor)
        × (s'.last_applied_lsn ≡ end s batch.entries)
        × ((lsns : List ℕ) × (s'.sent
              ≡ s.sent ++ acks_to batch s.node_id (lsns ++ (end s batch.entries ∷ [])))
            × AscendsTo 0 (end s batch.entries) lsns)
  unfolding process_batch_background acks_to AscendsTo
  batch_replays now batch ticks s up opened =
      elim (Bool-cases (leb (max_lsn batch.entries) s.last_applied_lsn)) [
        | inl old ↦
            let none_new =
              fresh_nothing s.last_applied_lsn 0 batch.entries up
                (ground (arith, max_lsn-reach batch.entries, old)) in
            rw none_new (unfold replay reach in simp (old, opened) (refl, refl, ([], refl, tt)))
        | inr new ↦
            let kept = process_from-keep 0 s.last_applied_lsn batch.entries s.executor up in
            let lsns = periodic_acks execute_entry ticks batch.entries s.last_applied_lsn 0 in
            let n = end s batch.entries in
            let db = replay execute_entry (fresh s.last_applied_lsn batch.entries) s.executor in
            let (sent, _, _, id, still) = send_acks-sent batch lsns s opened in
            let t = send_acks execute_entry batch lsns s in
            let (ran, reached, told) = finished now batch n db t still in
            let mine : List (String × Message) = acks_to batch s.node_id (n ∷ []) in
            simp (new, kept)
              (
                ran,
                reached,
                (
                  lsns,
                  told
                      ∙ ap (λ k. t.sent ++ acks_to batch k (n ∷ [])) id
                      ∙ ap (λ l. l ++ mine) sent
                      ∙ append_assoc s.sent (acks_to batch s.node_id lsns) mine
                      ∙ ap (λ l. s.sent ++ l) (sym (acks_to-append batch s.node_id lsns (n ∷ []))),
                  periodic_acks-AscendsTo ticks batch.entries 0 s.last_applied_lsn 0 n up
                      (omega arith)
                      (reach-fresh-le s.last_applied_lsn s.last_applied_lsn batch.entries
                        (omega arith)),
                ),
              )
      ]

  -- Each entry is executed without an error, one after the other.
  unfoldable pub Succeeds : List WalEntry → D → Type 0
  Succeeds [] db = Unit {0}
  Succeeds (e ∷ es) db =
      ((execute_entry e.entry db).0 ≡ ok tt) × Succeeds es (execute_entry e.entry db).1

  sync_from-all :
      (last n : ℕ) (es : List WalEntry) (db : D)
      → Succeeds (fresh last es) db
      → sync_from execute_entry last es (n, db)
        ≡ (reach n (fresh last es), replay execute_entry (fresh last es) db)
  unfolding sync_from Succeeds reach fresh replay
  sync_from-all last n [] db ok_all = refl
  sync_from-all last n (e ∷ es) db ok_all = elim (Bool-cases (leb (lsn_of e) last)) [
    | inl old ↦ ground (arith, old, sync_from-all last n es db)
    | inr new ↦ ground (arith, new, sync_from-all last (lsn_of e) es (execute_entry e.entry db).1)
  ]

  sync_from-stop :
      (last n : ℕ) (before : List WalEntry) (e : WalEntry) (rest : List WalEntry) (db : D)
      (x : Error)
      → Succeeds (fresh last before) db
      → last < lsn_of e
      → (execute_entry e.entry (replay execute_entry (fresh last before) db)).0 ≡ err x
      → sync_from execute_entry last (before ++ (e ∷ rest)) (n, db) ≡ (
        reach n (fresh last before),
        (execute_entry e.entry (replay execute_entry (fresh last before) db)).1,
      )
  unfolding sync_from Succeeds reach fresh replay
  sync_from-stop last n [] e rest db x ok_all new failed = ground arith
  sync_from-stop last n (b ∷ bs) e rest db x ok_all new failed =
      elim (Bool-cases (leb (lsn_of b) last)) [
        | inl old ↦ ground (arith, old, sync_from-stop last n bs e rest db x)
        | inr above ↦
            ground (
              arith,
              above,
              sync_from-stop last (lsn_of b) bs e rest (execute_entry b.entry db).1 x,
            )
      ]

  -- A sync response whose new entries all execute without an error executes them in order, and the
  -- last of their LSNs is then the applied one.
  pub sync_replays :
      (es : List WalEntry) (has_more : Bool) (s : FollowerNode D)
      → Succeeds (fresh s.last_applied_lsn es) s.executor
      → ((handle_sync_response execute_entry es has_more s).1.executor
          ≡ replay execute_entry (fresh s.last_applied_lsn es) s.executor)
        × ((handle_sync_response execute_entry es has_more s).1.last_applied_lsn ≡ end s es)
  unfolding handle_sync_response handle_sync_tail request_sync set_last_applied_lsn execute
  sync_replays es has_more s all_ok = ground (
    arith,
    sync_from-all s.last_applied_lsn s.last_applied_lsn es s.executor all_ok,
    reach-fresh-le s.last_applied_lsn s.last_applied_lsn es,
  )

  -- A sync response stops at the first new entry that fails: nothing behind it is executed, and the
  -- applied LSN is that of the last entry before it.
  pub sync_stops :
      (before : List WalEntry) (e : WalEntry) (rest : List WalEntry) (has_more : Bool)
      (s : FollowerNode D) (x : Error)
      → Succeeds (fresh s.last_applied_lsn before) s.executor
      → s.last_applied_lsn < lsn_of e
      → (execute_entry e.entry
          (replay execute_entry (fresh s.last_applied_lsn before) s.executor)).0
        ≡ err x
      → ((handle_sync_response execute_entry (before ++ (e ∷ rest)) has_more s).1.executor
          ≡ (execute_entry e.entry
              (replay execute_entry (fresh s.last_applied_lsn before) s.executor)).1)
        × ((handle_sync_response execute_entry (before ++ (e ∷ rest)) has_more s).1.last_applied_lsn
            ≡ end s before)
  unfolding handle_sync_response handle_sync_tail request_sync set_last_applied_lsn execute
  sync_stops before e rest has_more s x all_ok new failed = ground (
    arith,
    sync_from-stop s.last_applied_lsn s.last_applied_lsn before e rest s.executor x all_ok new
        failed,
    reach-fresh-le s.last_applied_lsn s.last_applied_lsn before,
  )
