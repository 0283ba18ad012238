-- ===== src/Wasicall/Replay/Steps.antt =====
-- How far a call moves a replay: it reads one record, if there is one, whatever its outcome is.
use Prim.Native.String.{String}
use timecraft.Common.{
  Bool, List, Option, [], ap, arith, drop, false, if◌then◌else◌, none, refl, some, sym, true, ℕ,
  ◌==◌, ◌∙◌, ◌∷◌, ◌≡◌,
}
use timecraft.Common.Result.{Result, err, ok}
use timecraft.Wasicall.Replay.Buffers.{closing-records, echo-records}
use timecraft.Wasicall.Replay.Dispatch.{replay}
use timecraft.Wasicall.Replay.Env.{
  replay_args_get, replay_args_sizes_get, replay_clock_res_get, replay_clock_time_get,
  replay_environ_get, replay_environ_sizes_get,
}
use timecraft.Wasicall.Replay.File.{
  replay_fd_advise, replay_fd_allocate, replay_fd_close, replay_fd_data_sync,
  replay_fd_file_stat_get, replay_fd_file_stat_set_size, replay_fd_file_stat_set_times,
  replay_fd_pre_stat_dir_name, replay_fd_pre_stat_get, replay_fd_stat_get, replay_fd_stat_set_flags,
  replay_fd_stat_set_rights,
}
use timecraft.Wasicall.Replay.Io.{
  replay_fd_pread, replay_fd_pwrite, replay_fd_read, replay_fd_read_dir, replay_fd_renumber,
  replay_fd_seek, replay_fd_sync, replay_fd_tell, replay_fd_write,
}
use timecraft.Wasicall.Replay.Paths.{
  replay_path_create_directory, replay_path_file_stat_get, replay_path_file_stat_set_times,
  replay_path_link, replay_path_open, replay_path_read_link, replay_path_remove_directory,
  replay_path_rename, replay_path_symlink, replay_path_unlink_file,
}
use timecraft.Wasicall.Replay.Process.{
  replay_poll_one_off, replay_proc_exit, replay_proc_raise, replay_random_get, replay_sched_yield,
}
use timecraft.Wasicall.Replay.Sock.{
  replay_sock_accept, replay_sock_bind, replay_sock_connect, replay_sock_listen, replay_sock_open,
  replay_sock_recv, replay_sock_recv_from, replay_sock_send, replay_sock_send_to,
  replay_sock_shutdown,
}
use timecraft.Wasicall.Replay.SockInfo.{
  replay_sock_address_info, replay_sock_get_opt, replay_sock_local_address,
  replay_sock_remote_address, replay_sock_set_opt,
}
use timecraft.Wasicall.Replay.State.{
  Replay, advance, answering, at_log_end, checked, closing, echo, filling, mismatches, read_record,
  rejecting, renumbering, replaying, take_record, with_decoded,
}
use timecraft.Wasicall.Syscall.Ids.{SyscallId, id_number}
use timecraft.Wasicall.Syscall.Log.{Record}
use timecraft.Wasicall.System.Request.{Outcome, Panic, Request}
use timecraft.Wasicall.Wasi.{Fd, Wasi}
use timecraft.Wasicall.Words.{CodecError}

module _ ⦃w : Wasi⦄ {Time Fault W : Type 0} where
  -- The log and the mode are left alone.
  record Keeps {B : Type 0} (r : Replay Time Fault W)
      (outcome : Outcome Fault B (Replay Time Fault W)) : Type 0 where
    same_records : outcome.1.records ≡ r.records
    same_mode : outcome.1.strict ≡ r.strict

  -- One record is read.
  pub record Moves {B : Type 0} (r : Replay Time Fault W)
      (outcome : Outcome Fault B (Replay Time Fault W)) : Type 0 where
    pub next_records :
        outcome.1.records ≡ record { items = drop 1 r.records.items; fault = r.records.fault }
    pub same_strictness : outcome.1.strict ≡ r.strict

  at_log_end-stays : (fault : Option Fault) (r : Replay Time Fault W) → (at_log_end fault r).1 ≡ r
  at_log_end-stays none r = refl
  at_log_end-stays (some fault) r = refl

  same_state :
      {B : Type 0} (b : Bool) (x y : Result (Panic Fault) B) (r : Replay Time Fault W)
      → (◌≡◌ {A = Replay Time Fault W}
          (if◌then◌else◌ {A = Outcome Fault B (Replay Time Fault W)} b (x, r) (y, r)).1
          r)
  same_state true x y r = refl
  same_state false x y r = refl

  take_record-Moves :
      (id : SyscallId) (r : Replay Time Fault W) (items : List (Record Time))
      → r.records.items ≡ items
      → Moves r (take_record id r items)
  take_record-Moves id r [] e =
      let stays = at_log_end-stays r.records.fault r in
      record {
        next_records =
            ap (λ x. x.records) stays
            ∙ (λ i. record { items = (e ∙ sym (ap (drop 1) e)) i; fault = r.records.fault });
        same_strictness = ap (λ x. x.strict) stays;
      }
  take_record-Moves id r (item ∷ items) e =
      let moved = same_state (item.function_id == id_number id) _ _ (advance items r) in
      record {
        next_records =
            ap (λ x. x.records) moved
            ∙ (λ i. record { items = sym (ap (drop 1) e) i; fault = r.records.fault });
        same_strictness = ap (λ x. x.strict) moved;
      }

  with_decoded-Keeps :
      {A B : Type 0} (continue : A → Replay Time Fault W → Outcome Fault B (Replay Time Fault W))
      (r : Replay Time Fault W) (decoded : Result CodecError A)
      → ((a : A) → Keeps r (continue a r))
      → Keeps r (with_decoded continue r decoded)
  with_decoded-Keeps continue r (ok a) keeps = keeps a
  with_decoded-Keeps continue r (err e) keeps = record { same_records = refl; same_mode = refl }

  answering-Keeps :
      {A B : Type 0} (default : B) (decode : List ℕ → Result CodecError A)
      (continue : A → Replay Time Fault W → Outcome Fault B (Replay Time Fault W))
      (next : Result (Panic Fault) (Option (List ℕ))) (r : Replay Time Fault W)
      → ((a : A) → Keeps r (continue a r))
      → Keeps r (answering default decode continue (next, r))
  unfolding answering
  answering-Keeps default decode continue (err panic) r keeps = record {
    same_records = refl;
    same_mode = refl;
  }
  answering-Keeps default decode continue (ok none) r keeps = record {
    same_records = refl;
    same_mode = refl;
  }
  answering-Keeps default decode continue (ok (some bytes)) r keeps =
      with_decoded-Keeps continue r (decode bytes) keeps

  replaying-Moves :
      {A B : Type 0} (id : SyscallId) (default : B) (decode : List ℕ → Result CodecError A)
      (r : Replay Time Fault W)
      (continue : A → Replay Time Fault W → Outcome Fault B (Replay Time Fault W))
      → ((a : A) (r : Replay Time Fault W) → Keeps r (continue a r))
      → Moves r (replaying id default decode r continue)
  unfolding replaying read_record
  replaying-Moves id default decode r continue keeps =
      let first = take_record-Moves id r r.records.items refl in
      let r1 = (read_record id r).1 in
      let then_kept =
        answering-Keeps default decode continue (read_record id r).0 r1 (λ a. keeps a r1) in
      record {
        next_records = then_kept.same_records ∙ first.next_records;
        same_strictness = then_kept.same_mode ∙ first.same_strictness;
      }

  if-Keeps :
      {B : Type 0} (b : Bool) (r : Replay Time Fault W)
      (x y : Outcome Fault B (Replay Time Fault W))
      → Keeps r x
      → Keeps r y
      → Keeps r (if b then x else y)
  if-Keeps true r x y hx hy = hx
  if-Keeps false r x y hx hy = hy

  rejecting-Keeps :
      {B : Type 0} (missed : List (SyscallId × String)) (r : Replay Time Fault W)
      (result : Outcome Fault B (Replay Time Fault W))
      → Keeps r result
      → Keeps r (rejecting missed r result)
  rejecting-Keeps [] r result keeps = keeps
  rejecting-Keeps (m ∷ ms) r result keeps = record { same_records = refl; same_mode = refl }

  checked-Keeps :
      {B : Type 0} (params : List (SyscallId × String × Bool)) (r : Replay Time Fault W)
      (result : Outcome Fault B (Replay Time Fault W))
      → Keeps r result
      → Keeps r (checked params r result)
  unfolding checked
  checked-Keeps params r result keeps =
      if-Keeps r.strict r _ result (rejecting-Keeps (mismatches params) r result keeps) keeps

  filling-Keeps :
      {B : Type 0} (filled : Option (List (List ℕ))) (r : Replay Time Fault W)
      (finish : List (List ℕ) → B)
      → Keeps r (filling filled r finish)
  filling-Keeps none r finish = record { same_records = refl; same_mode = refl }
  filling-Keeps (some iovecs) r finish = record { same_records = refl; same_mode = refl }

  closing-strict : (fd : Fd) (r : Replay Time Fault W) → (closing fd r).strict ≡ r.strict
  unfolding closing
  closing-strict fd r = ground arith

  renumbered-Keeps :
      {B : Type 0} (b : Bool) (from to : Fd) (r : Replay Time Fault W)
      {result : Result (Panic Fault) B}
      → Keeps r (result, if b then renumbering from to r else r)
  unfolding renumbering
  renumbered-Keeps b from to r = record { same_records = ground arith; same_mode = ground arith }

  echo-strict :
      (write : W → List ℕ → W × Bool) (fd : Fd) (iovecs : List (List ℕ)) (r : Replay Time Fault W)
      → (echo write fd iovecs r).strict ≡ r.strict
  unfolding echo
  echo-strict write fd iovecs r = ground arith

  -- Every call, whatever its outcome, takes one record off the log if there is one, and leaves the
  -- log's error and the mode as they are.
  pub replay-Moves :
      (write : W → List ℕ → W × Bool) (q : Request) (r : Replay Time Fault W)
      → Moves r (replay write q r)
  unfolding replay replay_args_sizes_get replay_args_get replay_environ_sizes_get replay_environ_get
      replay_clock_res_get replay_clock_time_get replay_fd_advise replay_fd_allocate replay_fd_close
      replay_fd_data_sync replay_fd_stat_get replay_fd_stat_set_flags replay_fd_stat_set_rights
      replay_fd_file_stat_get replay_fd_file_stat_set_size replay_fd_file_stat_set_times
      replay_fd_pread replay_fd_pre_stat_get replay_fd_pre_stat_dir_name replay_fd_pwrite
      replay_fd_read replay_fd_read_dir replay_fd_renumber replay_fd_seek replay_fd_sync
      replay_fd_tell replay_fd_write replay_path_create_directory replay_path_file_stat_get
      replay_path_file_stat_set_times replay_path_link replay_path_open replay_path_read_link
      replay_path_remove_directory replay_path_rename replay_path_symlink replay_path_unlink_file
      replay_poll_one_off replay_proc_exit replay_proc_raise replay_sched_yield replay_random_get
      replay_sock_accept replay_sock_recv replay_sock_send replay_sock_shutdown replay_sock_open
      replay_sock_bind replay_sock_connect replay_sock_listen replay_sock_send_to
      replay_sock_recv_from replay_sock_get_opt replay_sock_set_opt replay_sock_local_address
      replay_sock_remote_address replay_sock_address_info
  replay-Moves write Request.args_sizes_get r =
      replaying-Moves _ _ _ _ _ λ a r. record { same_records = refl; same_mode = refl }
  replay-Moves write Request.args_get r =
      replaying-Moves _ _ _ _ _ λ a r. record { same_records = refl; same_mode = refl }
  replay-Moves write Request.environ_sizes_get r =
      replaying-Moves _ _ _ _ _ λ a r. record { same_records = refl; same_mode = refl }
  replay-Moves write Request.environ_get r =
      replaying-Moves _ _ _ _ _ λ a r. record { same_records = refl; same_mode = refl }
  replay-Moves write (Request.fd_close fd) r = replaying-Moves _ _ _ _ _ λ a r.
      checked-Keeps _ r _
        (record { same_records = closing-records fd r; same_mode = closing-strict fd r })
  replay-Moves write (Request.fd_pread _ _ _) r =
      replaying-Moves _ _ _ _ _ λ a r. checked-Keeps _ r _ (filling-Keeps _ _ _)
  replay-Moves write (Request.fd_read _ _) r =
      replaying-Moves _ _ _ _ _ λ a r. checked-Keeps _ r _ (filling-Keeps _ _ _)
  replay-Moves write (Request.fd_renumber from to) r =
      replaying-Moves _ _ _ _ _ λ a r. checked-Keeps _ r _ (renumbered-Keeps _ from to r)
  replay-Moves write (Request.fd_write fd iovecs) r = replaying-Moves _ _ _ _ _ λ a r.
      checked-Keeps _ r _ (record {
        same_records = echo-records write fd iovecs r;
        same_mode = echo-strict write fd iovecs r;
      })
  replay-Moves write Request.sched_yield r =
      replaying-Moves _ _ _ _ _ λ a r. record { same_records = refl; same_mode = refl }
  replay-Moves write (Request.sock_recv _ _ _) r =
      replaying-Moves _ _ _ _ _ λ a r. checked-Keeps _ r _ (filling-Keeps _ _ _)
  replay-Moves write (Request.sock_recv_from _ _ _) r =
      replaying-Moves _ _ _ _ _ λ a r. checked-Keeps _ r _ (filling-Keeps _ _ _)
  replay-Moves write _ r =
      replaying-Moves _ _ _ _ _
        λ a r. checked-Keeps _ r _ (record { same_records = refl; same_mode = refl })
