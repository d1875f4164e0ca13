-- ===== src/App/Known.antt =====
-- Which changes of files the client takes for its own (client/src/app.cpp).
use trabalho_sistemas_operac.Prelude.{
  ℕ, ◌+◌, ◌%◌, ◌^◌, ◌≡◌, ◌∙◌, refl, ap, sym, true, false, Bool-cases, inl, inr, some, List, [], ◌∷◌,
  ◌++◌, if◌then◌else◌, bytes_eq, bytes_eq_self, eq_of_bytes_eq, arith, ==_self,
}
use trabalho_sistemas_operac.Queue.Order.{free, push_lem}
use trabalho_sistemas_operac.Queue.{push}
use trabalho_sistemas_operac.App.{
  Task, Process, Outcome, returned, Host, c_str, lookup, insert, erase, changed, path_file,
  new_task, with_mutex, push_task, pushed, hash_file, upload_changed, notify_modified,
  write_changed, network_modified, post,
}

pub lookup-insert_self :
    (k : List ℕ) (v : ℕ) (m : List (List ℕ × ℕ)) → lookup k (insert k v m) ≡ some v
unfolding lookup insert
lookup-insert_self k v [] = rw (bytes_eq_self k) refl
lookup-insert_self k v ((j, h) ∷ m) = elim (Bool-cases (bytes_eq j k)) [
  | inl e ↦ rw e (rw (e, lookup) refl)
  | inr e ↦ rw e (rw (e, lookup) (lookup-insert_self k v m))
]

pub lookup-insert_other :
    (k j : List ℕ) (v : ℕ) (m : List (List ℕ × ℕ))
    → bytes_eq j k ≡ false
    → lookup k (insert j v m) ≡ lookup k m
unfolding lookup insert
lookup-insert_other k j v [] d = rw (d, lookup) refl
lookup-insert_other k j v ((i, h) ∷ m) d =
    ground (arith, eq_of_bytes_eq i j, lookup-insert_other k j v m d)

pub lookup-erase_other :
    (k j : List ℕ) (m : List (List ℕ × ℕ))
    → bytes_eq j k ≡ false
    → lookup k (erase j m) ≡ lookup k m
unfolding lookup erase
lookup-erase_other k j [] d = refl
lookup-erase_other k j ((i, h) ∷ m) d = elim (Bool-cases (bytes_eq i j)) [
  | inl e ↦ rw e (rw (eq_of_bytes_eq i j e, d, lookup) (lookup-erase_other k j m d))
  | inr e ↦ rw e (ap (λ o. if bytes_eq i k then some h else o) (lookup-erase_other k j m d))
]

changed_self : (hash : ℕ) → changed (some hash) hash ≡ false
changed_self hash = rw (==_self hash) refl

-- No thread is in `App` or in the queue of tasks, which has these tasks.
pub record IsIdle {D : Type 0} (tasks : List (ℕ × Task)) (p : Process D) : Type 0 where
  pub mutex : p.mutex ≡ 1
  pub queue : p.task_queue ≡ free tasks

module _ {D : Type 0} where
  pub with_mutex_lem :
      (k : Process D → Outcome D) (p : Process D)
      → p.mutex ≡ 1
      → with_mutex k p ≡ post (k (record p { mutex = 0 }))
  unfolding with_mutex
  with_mutex_lem k p e = rw e refl

  -- The process behind a new task.
  abbrev pub with_task : Process D → Task → List (ℕ × Task) → Process D
  with_task p task tasks = record p {
    last_task_id = (p.last_task_id + 1) % 2 ^ 32;
    task_queue = free (tasks ++ (p.last_task_id, task) ∷ []);
  }

  pub push_task_lem :
      (type : ℕ) (filename path : List ℕ) (p : Process D) (tasks : List (ℕ × Task))
      → p.task_queue ≡ free tasks
      → push_task type filename path p
        ≡ returned (with_task p (new_task type filename path p) tasks)
  unfolding push_task
  push_task_lem type filename path p tasks e =
      ap (λ q. pushed p (push p.last_task_id (new_task type filename path p) q)) e
      ∙ ap (pushed p) (push_lem p.last_task_id (new_task type filename path p) tasks)

  module _ (host : Host D) where
    -- What a host must do: a file that was written is what an `std::ifstream` finds.
    abbrev pub Rereads : Type 0
    Rereads =
        (path buf : List ℕ) (disk disk' : D)
        → host.netfs.write_file path buf disk ≡ (true, disk')
        → host.contents path disk' ≡ some buf

    -- The process after a change from the network was written.
    abbrev pub taken : List ℕ → List ℕ → D → Process D → Process D
    taken filename buf disk' p = record p {
      mutex = 1;
      dir_hash = insert filename (host.hasher buf) p.dir_hash;
      disk = disk';
    }

    pub network_modified_lem :
        (p : Process D) (filename buf : List ℕ) (disk' : D)
        → p.mutex ≡ 1
        → changed (lookup filename p.dir_hash) (host.hasher buf) ≡ true
        → host.netfs.write_file (c_str (path_file filename p)) buf p.disk ≡ (true, disk')
        → network_modified host filename buf p ≡ returned (taken filename buf disk' p)
    unfolding network_modified write_changed post
    network_modified_lem p filename buf disk' e c w =
        with_mutex_lem (write_changed host filename buf) p e ∙ rw (c, w) refl

    hash_file_lem :
        (p : Process D) (filename buf : List ℕ)
        → host.contents (c_str (path_file filename p)) p.disk ≡ some buf
        → hash_file host filename p ≡ host.hasher buf
    unfolding hash_file
    hash_file_lem p filename buf e = rw (e, hash_file) refl

    -- A file with the hash that is known is not uploaded.
    upload_changed_known :
        (p : Process D) (filename : List ℕ)
        → lookup filename p.dir_hash ≡ some (hash_file host filename p)
        → upload_changed host filename p ≡ returned p
    unfolding upload_changed
    upload_changed_known p filename e = rw (e, changed_self (hash_file host filename p)) refl

    notify_modified_known :
        (p : Process D) (filename : List ℕ)
        → p.mutex ≡ 1
        → lookup filename p.dir_hash ≡ some (hash_file host filename p)
        → notify_modified host filename p ≡ returned p
    unfolding notify_modified post hash_file
    notify_modified_known p filename m e =
        with_mutex_lem (upload_changed host filename) p m
        ∙ ap post (upload_changed_known (record p { mutex = 0 }) filename e)
        ∙ ap (λ k. returned (record p { mutex = k })) (sym m)

    -- With the semaphore of `App` free, contents whose hash is not the known one, and a disk that
    -- takes the file and gives it back: `network_modified` writes the contents, and when
    -- `notify_modified` is then called with the same name, it changes nothing and uploads nothing.
    pub network_modified-notify_modified :
        (p : Process D) (filename buf : List ℕ) (disk' : D)
        → Rereads
        → p.mutex ≡ 1
        → changed (lookup filename p.dir_hash) (host.hasher buf) ≡ true
        → host.netfs.write_file (c_str (path_file filename p)) buf p.disk ≡ (true, disk')
        → (p' : Process D) × (network_modified host filename buf p ≡ returned p')
          × (host.contents (c_str (path_file filename p)) p'.disk ≡ some buf)
          × (notify_modified host filename p' ≡ returned p')
    network_modified-notify_modified p filename buf disk' rereads m c w =
        let p' : Process D = taken filename buf disk' p in
        let r = rereads _ buf p.disk disk' w in
        (
          p',
          network_modified_lem p filename buf disk' m c w,
          r,
          notify_modified_known p' filename refl (
              lookup-insert_self filename (host.hasher buf) p.dir_hash
              ∙ ap some (sym (hash_file_lem p' filename buf r))),
        )
