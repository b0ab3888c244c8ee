-- ===== src/Wolfdisk/Replicas/Followers.antt =====
-- A follower (wolfdisk/src/main.rs) that is given all that its leader (wolfdisk/src/fuse/filesystem.rs)
-- has sent.
use wolf_scale.Base.{
  ℕ, ◌≡◌, refl, ap, sym, ◌∙◌, Bool, true, false, Option, none, some, List, [], ◌∷◌, ◌++◌, ◌&&◌,
  if◌then◌else◌, Bool-cases, Option-cases, inl, inr,
}
use wolf_scale.Wolfdisk.Paths.{FilePath, join, path_eq, path_eq_iff, path_eq_refl}
use wolf_scale.Wolfdisk.Index.{
  FileEntry, FileIndex, entry_of, contains, add_entry, remove_entry, has_children,
}
use wolf_scale.Wolfdisk.Inodes.{get_path, get_inode}
use wolf_scale.Wolfdisk.Cluster.{ClusterManager, record_change}
use wolf_scale.Wolfdisk.Cluster
use wolf_scale.Wolfdisk.Filesystem.{
  WolfDiskFs, Request, Outcome, done, error, IndexOperation, upsert, delete, mkdir, rename, Message,
  index_update, file_sync, leads, is_leader, open_handle, broadcast_with, broadcast_index_update,
  queue_message, broadcast_file_sync_final, link_in, parent_path,
}
use wolf_scale.Wolfdisk.Filesystem.Entries.{
  at, new_entry, mkdir_at, create_at, open_file, is_open_to,
}
use wolf_scale.Wolfdisk.Filesystem.Entries
use wolf_scale.Wolfdisk.Filesystem.Removal.{
  forget_writes, drop_file, drop_dir, unlink_found, unlink_at, rmdir_found, rmdir_at, drop_target,
  move_entry, rename_over, rename_found, rename_at, announce_unlink, delete_signal,
}
use wolf_scale.Wolfdisk.Filesystem.Removal
use wolf_scale.Wolfdisk.Filesystem.Valid.{at_keeps}
use wolf_scale.Wolfdisk.Filesystem.Runs.{
  Call, make_dir, make_file, make_node, make_symlink, make_link, remove_file, remove_dir, move,
  open_inode, change_file, write_file, flush_file, sync_file, release_file, call, run, IsAllowed,
}
use wolf_scale.Wolfdisk.Replicas.{drop_path, handle_deletion, handle_file_sync, handle, deliver}
use wolf_scale.Wolfdisk.Replicas.Mirror.{
  seen, Mirrors, after_op, IsSendable, seen-add_entry, seen-remove_entry, seen-some,
  after_op-Mirrors, IsSendable-Mirrors, handle_index_update-seen,
}

-- A node that leads a cluster
unfoldable pub Leads : WolfDiskFs → Type 0
Leads fs = (m : ClusterManager) × (fs.cluster ≡ some m) × (Cluster.is_leader m ≡ true)

Leads-is_leader : (fs : WolfDiskFs) → Leads fs → is_leader fs ≡ true
unfolding Leads is_leader
Leads-is_leader fs (m, e, l) = ap leads e ∙ l

-- A state after a broadcast: what was sent, the same index, and it leads still.
Tells : WolfDiskFs → Message → WolfDiskFs → Type 0
Tells fs msg fs' = (fs'.sent ≡ fs.sent ++ (msg ∷ [])) × (fs'.file_index ≡ fs.file_index) × Leads fs'

broadcast_with-Tells :
    (op : IndexOperation) (fs : WolfDiskFs) (m : ClusterManager)
    → Cluster.is_leader m ≡ true
    → (version : ℕ) × Tells fs (index_update version op) (broadcast_with op fs (some m))
unfolding Tells Leads record_change Cluster.is_leader
broadcast_with-Tells op fs m l =
    let told =
      record_change
        (wolf_scale.Wolfdisk.Paths.path_text (wolf_scale.Wolfdisk.Filesystem.op_path op))
        (wolf_scale.Wolfdisk.Filesystem.is_delete op) m in
    (told.0, (refl, refl, (told.1, refl, l)))

broadcast-Tells :
    (op : IndexOperation) (fs : WolfDiskFs)
    → Leads fs
    → (version : ℕ) × Tells fs (index_update version op) (broadcast_index_update op fs)
unfolding broadcast_index_update Leads
broadcast-Tells op fs (m, e, l) =
    simp (Leads-is_leader fs (m, e, l), e) (broadcast_with-Tells op fs m l)

file_sync-Tells :
    (p : FilePath) (entry : FileEntry) (fs : WolfDiskFs)
    → Leads fs
    → Tells fs (file_sync p entry) (broadcast_file_sync_final p entry fs)
unfolding broadcast_file_sync_final Leads Tells
file_sync-Tells p entry fs (m, e, l) =
    simp (Leads-is_leader fs (m, e, l), e) (refl, refl, (m, refl, l))

-- mkdir, create, unlink, rmdir, rename and open
unfoldable pub IsTold : Call → Type 0
IsTold (make_node _ _ _ _ _) = ⊥
IsTold (make_symlink _ _ _ _ _ _) = ⊥
IsTold (make_link _ _ _ _ _) = ⊥
IsTold (change_file _ _ _ _) = ⊥
IsTold (write_file _ _ _ _ _) = ⊥
IsTold (flush_file _ _ _) = ⊥
IsTold (sync_file _ _ _) = ⊥
IsTold (release_file _ _ _ _ _) = ⊥
IsTold _ = Unit {0}

unfoldable pub AllTold : List Call → WolfDiskFs → Type 0
AllTold [] fs = Unit {0}
AllTold (c ∷ cs) fs = Leads fs × IsAllowed c fs × IsTold c × AllTold cs (call c fs)

module _ (is_client : Bool) (now : ℕ) (f : WolfDiskFs) where
  -- The index of the follower `f` is like the leader's once it has got all that was sent.
  unfoldable pub Follows : WolfDiskFs → Type 0
  Follows fs = Mirrors fs.file_index (deliver is_client now fs.sent f).file_index

  deliver-snoc :
      (ms : List Message) (m : Message) (g : WolfDiskFs)
      → deliver is_client now (ms ++ (m ∷ [])) g
        ≡ handle is_client now m (deliver is_client now ms g)
  unfolding deliver
  deliver-snoc [] m g = refl
  deliver-snoc (x ∷ ms) m g = deliver-snoc ms m (handle is_client now x g)

  -- A call that does an operation and broadcasts it
  broadcast-Follows :
      (op : IndexOperation) (fs fs' : WolfDiskFs)
      → fs'.sent ≡ fs.sent
      → ((q : FilePath) → seen q fs'.file_index ≡ after_op op q fs.file_index)
      → IsSendable op fs.file_index
      → Leads fs'
      → Follows fs
      → Follows (broadcast_index_update op fs')
  unfolding Follows Mirrors Tells handle
  broadcast-Follows op fs fs' same done_op s l h q =
      let (version, (told, index, _)) = broadcast-Tells op fs' l in
      let g = deliver is_client now fs.sent f in
      ap (seen q) index
      ∙ done_op q
      ∙ after_op-Mirrors op q fs.file_index g.file_index h
      ∙ sym (
          handle_index_update-seen is_client now op q g
            (IsSendable-Mirrors op fs.file_index g.file_index h s))
      ∙ sym (
          ap (λ ms. seen q (deliver is_client now ms f).file_index)
            (told ∙ ap (λ ms. ms ++ (index_update version op ∷ [])) same)
          ∙ ap (λ k. seen q k.file_index) (deliver-snoc fs.sent (index_update version op) f))

  -- The second message of `unlink` finds nothing more to do.
  handle_deletion-seen :
      (p q : FilePath) (g : WolfDiskFs) (o : Option FileEntry)
      → seen p g.file_index ≡ none
      → seen q (handle_deletion p g o).file_index ≡ seen q g.file_index
  unfolding drop_path
  handle_deletion-seen p q g none h = refl
  handle_deletion-seen p q g (some entry) h =
      seen-remove_entry p q g.file_index ∙ elim (Bool-cases (path_eq p q)) [
        | inl e ↦ simp (sym ((path_eq_iff p q).0 e), path_eq_refl p, h) refl
        | inr e ↦ simp e refl
      ]

  signal-Follows :
      (p : FilePath) (at_time : ℕ) (fs : WolfDiskFs)
      → seen p fs.file_index ≡ none
      → Leads fs
      → Follows fs
      → Follows (broadcast_file_sync_final p (delete_signal at_time) fs)
  unfolding Follows Mirrors Tells handle handle_file_sync
  signal-Follows p at_time fs gone l h q =
      let (told, index, _) = file_sync-Tells p (delete_signal at_time) fs l in
      let g = deliver is_client now fs.sent f in
      ap (seen q) index
      ∙ h q
      ∙ sym (
          ap (λ ms. seen q (deliver is_client now ms f).file_index) told
          ∙ ap (λ k. seen q k.file_index)
              (deliver-snoc fs.sent (file_sync p (delete_signal at_time)) f)
          ∙ handle_deletion-seen p q g (entry_of p g.file_index) (sym (h p) ∙ gone))

  module _ (fs : WolfDiskFs) (l : Leads fs) (h : Follows fs) (p : FilePath) where
    mkdir_at-Follows :
        (answer : Outcome (Unit {0})) (t : ℕ) (req : Request) (mode : ℕ)
        → Follows ((mkdir_at answer t req mode fs p).1)
    unfolding mkdir_at link_in Leads after_op IsSendable
    mkdir_at-Follows answer t req mode = elim (Bool-cases (contains p fs.file_index)) [
      | inl there ↦ simp (Leads-is_leader fs l, there) h
      | inr new ↦
          simp (Leads-is_leader fs l, new)
            (broadcast-Follows (mkdir p mode) fs (link_in p (new_entry true mode t req) fs) refl
              (λ q. seen-add_entry p q (new_entry true mode t req) fs.file_index) tt l h)
    ]

    create_at-Follows :
        (answer : Outcome (Unit {0})) (t : ℕ) (req : Request) (mode : ℕ)
        → Follows ((create_at answer t req mode fs p).1)
    unfolding create_at link_in open_handle Leads after_op IsSendable
    create_at-Follows answer t req mode =
        let entry = new_entry false mode t req in
        elim (Bool-cases (contains p fs.file_index)) [
          | inl there ↦ simp (Leads-is_leader fs l, there) h
          | inr new ↦
              simp (Leads-is_leader fs l, new)
                (broadcast-Follows (upsert p 0 t mode []) fs
                  ((open_handle fs.next_inode (link_in p entry fs)).1) refl
                  (λ q. seen-add_entry p q entry fs.file_index) tt l h)
        ]

    rmdir_at-Follows : (answer : Outcome (Unit {0})) → Follows ((rmdir_at answer fs p).1)
    unfolding rmdir_at rmdir_found drop_dir Leads after_op IsSendable
    rmdir_at-Follows answer = elim (Option-cases (entry_of p fs.file_index)) [
      | inl absent ↦ simp (Leads-is_leader fs l, absent) h
      | inr (e, k) ↦ elim (Bool-cases e.is_dir) [
        | inr file ↦ simp (Leads-is_leader fs l, k, file) h
        | inl dir ↦ elim (Bool-cases (has_children p fs.file_index)) [
          | inl full ↦ simp (Leads-is_leader fs l, k, dir, full) h
          | inr bare ↦
              simp (Leads-is_leader fs l, k, dir, bare)
                (broadcast-Follows (delete p) fs (drop_dir p fs) refl
                  (λ q. seen-remove_entry p q fs.file_index) tt l h)
        ]
      ]
    ]

  forget_writes-Leads : (o : Option ℕ) (fs : WolfDiskFs) → Leads fs → Leads (forget_writes o fs)
  unfolding Leads forget_writes
  forget_writes-Leads none fs l = l
  forget_writes-Leads (some i) fs l = l

  forget_writes-Follows :
      (o : Option ℕ) (fs : WolfDiskFs) → Follows fs → Follows (forget_writes o fs)
  unfolding Follows forget_writes
  forget_writes-Follows none fs h = h
  forget_writes-Follows (some i) fs h = h

  unlink-Follows :
      (t : ℕ) (p : FilePath) (fs : WolfDiskFs)
      → Leads fs
      → Follows fs
      → Follows (announce_unlink t p (drop_file p fs))
  unfolding drop_file Leads Tells after_op IsSendable
  unlink-Follows t p fs l h =
      let dropped = drop_file p fs in
      let told = broadcast_index_update (delete p) dropped in
      let (version, (_, index, l')) = broadcast-Tells (delete p) dropped l in
      signal-Follows p t told
        (ap (seen p) index ∙ seen-remove_entry p p fs.file_index ∙ simp (path_eq_refl p) refl) l'
        (broadcast-Follows (delete p) fs dropped refl (λ q. seen-remove_entry p q fs.file_index) tt
          l h)

  unlink_at-Follows :
      (answer : Outcome (Unit {0})) (t : ℕ) (p : FilePath) (fs : WolfDiskFs)
      → Leads fs
      → Follows fs
      → Follows ((unlink_at answer t fs p).1)
  unfolding unlink_at unlink_found
  unlink_at-Follows answer t p fs l h = elim (Option-cases (entry_of p fs.file_index)) [
    | inl absent ↦ simp (Leads-is_leader fs l, absent) h
    | inr (e, k) ↦ elim (Bool-cases e.is_dir) [
      | inl dir ↦ simp (Leads-is_leader fs l, k, dir) h
      | inr file ↦
          let o = get_inode p fs.inode_table in
          simp (Leads-is_leader fs l, k, file)
            (unlink-Follows t p (forget_writes o fs) (forget_writes-Leads o fs l)
              (forget_writes-Follows o fs h))
    ]
  ]

  -- What a move makes of the index, whether or not there was a target
  seen-moved :
      (from to q : FilePath) (e : FileEntry) (a b : FileIndex)
      → (from ≡ to → ⊥)
      → entry_of from a ≡ some e
      → (path_eq to q ≡ false → seen q b ≡ seen q a)
      → seen q (add_entry to e (remove_entry from b)) ≡ after_op (rename from to) q a
  unfolding after_op
  seen-moved from to q e a b ne k same =
      seen-add_entry to q e (remove_entry from b) ∙ elim (Bool-cases (path_eq to q)) [
        | inl z ↦ simp z (sym (seen-some from e a k))
        | inr z ↦
            simp z
              (seen-remove_entry from q b ∙ ap (λ r. if path_eq from q then none else r) (same z))
      ]

  seen-drop_target :
      (to q : FilePath) (target : FileEntry) (fs : WolfDiskFs)
      → path_eq to q ≡ false
      → seen q (drop_target to target fs).file_index ≡ seen q fs.file_index
  unfolding drop_target
  seen-drop_target to q target fs z = seen-remove_entry to q fs.file_index ∙ simp z refl

  rename_at-Follows :
      (answer : Outcome (Unit {0})) (from to : FilePath) (fs : WolfDiskFs)
      → (from ≡ to → ⊥)
      → Leads fs
      → Follows fs
      → Follows ((rename_at answer from fs to).1)
  unfolding rename_at rename_found rename_over move_entry drop_target Leads IsSendable
  rename_at-Follows answer from to fs ne l h = elim (Option-cases (entry_of from fs.file_index)) [
    | inl absent ↦ simp (Leads-is_leader fs l, absent) h
    | inr (e, k) ↦ elim (Option-cases (entry_of to fs.file_index)) [
      | inl new ↦
          simp (Leads-is_leader fs l, k, new)
            (broadcast-Follows (rename from to) fs (move_entry from to e fs) refl
              (λ q. seen-moved from to q e fs.file_index fs.file_index ne k (λ z. refl))
              (ne, (e, k)) l h)
      | inr (target, j) ↦ elim (Bool-cases (target.is_dir && has_children to fs.file_index)) [
        | inl full ↦ simp (Leads-is_leader fs l, k, j, full) h
        | inr bare ↦
            let cleared = drop_target to target fs in
            simp (Leads-is_leader fs l, k, j, bare)
              (broadcast-Follows (rename from to) fs (move_entry from to e cleared) refl
                (λ q.
                  seen-moved from to q e fs.file_index cleared.file_index ne k
                    (seen-drop_target to q target fs))
                (ne, (e, k)) l h)
      ]
    ]
  ]

  open_file-Follows : (ino : ℕ) (fs : WolfDiskFs) → Follows fs → Follows ((open_file ino fs).1)
  unfolding open_file open_handle Follows
  open_file-Follows ino fs h = elim (Bool-cases (is_open_to ino (get_path ino fs.inode_table))) [
    | inl e ↦ simp e h
    | inr e ↦ simp e h
  ]

  call-Follows :
      (c : Call) (fs : WolfDiskFs)
      → Leads fs
      → IsAllowed c fs
      → IsTold c
      → Follows fs
      → Follows (call c fs)
  unfolding call IsAllowed IsTold Entries.mkdir Entries.create Removal.unlink Removal.rmdir
      Removal.rename
  call-Follows (make_dir t req parent name mode) fs l a b h =
      at_keeps Follows parent name fs (mkdir_at (done tt) t req mode fs) h
        (λ dir e. mkdir_at-Follows fs l h (join dir name) (done tt) t req mode)
  call-Follows (make_file t req parent name mode) fs l a b h =
      at_keeps Follows parent name fs (create_at (done tt) t req mode fs) h
        (λ dir e. create_at-Follows fs l h (join dir name) (done tt) t req mode)
  call-Follows (make_node t req parent name mode) fs l a b h = absurd b
  call-Follows (make_symlink t req parent name size target) fs l a b h = absurd b
  call-Follows (make_link t req ino newparent newname) fs l a b h = absurd b
  call-Follows (remove_file t parent name) fs l a b h =
      at_keeps Follows parent name fs (unlink_at (done tt) t fs) h
        (λ dir e. unlink_at-Follows (done tt) t (join dir name) fs l h)
  call-Follows (remove_dir parent name) fs l a b h =
      at_keeps Follows parent name fs (rmdir_at (done tt) fs) h
        (λ dir e. rmdir_at-Follows fs l h (join dir name) (done tt))
  call-Follows (move parent name newparent newname) fs l a b h =
      at_keeps Follows parent name fs
        (λ from. at newparent newname fs (rename_at (done tt) from fs)) h
        (λ dir e.
          at_keeps Follows newparent newname fs (rename_at (done tt) (join dir name) fs) h
            (λ dir' e'.
              rename_at-Follows (done tt) (join dir name) (join dir' newname) fs (a dir dir' e e') l
                h))
  call-Follows (open_inode ino) fs l a b h = open_file-Follows ino fs h
  call-Follows (change_file t req ino change) fs l a b h = absurd b
  call-Follows (write_file sha256 t ino offset content) fs l a b h = absurd b
  call-Follows (flush_file sha256 t ino) fs l a b h = absurd b
  call-Follows (sync_file sha256 t ino) fs l a b h = absurd b
  call-Follows (release_file sha256 t ino fh due) fs l a b h = absurd b

  -- A follower whose index is like the leader's once it has all that the leader has sent stays so over
  -- mkdir, create, unlink, rmdir, rename of a path to another and open, each made while the node leads
  -- its cluster: once the follower has all that was sent, it has the same paths and under each an entry
  -- of the same kind, size, permissions and chunks.
  pub run-Follows :
      (cs : List Call) (fs : WolfDiskFs) → AllTold cs fs → Follows fs → Follows (run cs fs)
  unfolding run AllTold
  run-Follows [] fs a h = h
  run-Follows (c ∷ cs) fs (l, a, b, more) h =
      run-Follows cs (call c fs) more (call-Follows c fs l a b h)
