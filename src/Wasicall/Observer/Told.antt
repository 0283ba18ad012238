-- ===== src/Wasicall/Observer/Told.antt =====
-- What the callbacks of an observer are told, and that the observer changes nothing else.
use timecraft.Common.{List, Option, [], ap, length, none, refl, set, some, ℕ, ◌≡◌, ◌≢◌}
use timecraft.Common.Int.{pos}
use timecraft.Common.Result.{err, ok}
use timecraft.Wasicall.Observer.{notify, observing, observing_swapped}
use timecraft.Wasicall.Observer.Dispatch.{observer}
use timecraft.Wasicall.Observer.Env.{
  observer_args_get, observer_args_sizes_get, observer_clock_res_get, observer_clock_time_get,
  observer_environ_get, observer_environ_sizes_get,
}
use timecraft.Wasicall.Observer.File.{
  observer_fd_advise, observer_fd_allocate, observer_fd_close, observer_fd_data_sync,
  observer_fd_file_stat_get, observer_fd_file_stat_set_size, observer_fd_file_stat_set_times,
  observer_fd_pre_stat_dir_name, observer_fd_pre_stat_get, observer_fd_stat_get,
  observer_fd_stat_set_flags, observer_fd_stat_set_rights,
}
use timecraft.Wasicall.Observer.Io.{
  observer_fd_pread, observer_fd_pwrite, observer_fd_read, observer_fd_read_dir,
  observer_fd_renumber, observer_fd_seek, observer_fd_sync, observer_fd_tell, observer_fd_write,
}
use timecraft.Wasicall.Observer.Paths.{
  observer_path_create_directory, observer_path_file_stat_get, observer_path_file_stat_set_times,
  observer_path_link, observer_path_open, observer_path_read_link, observer_path_remove_directory,
  observer_path_rename, observer_path_symlink, observer_path_unlink_file,
}
use timecraft.Wasicall.Observer.Process.{
  observer_poll_one_off, observer_proc_exit, observer_proc_raise, observer_random_get,
  observer_sched_yield,
}
use timecraft.Wasicall.Observer.Sock.{
  observer_sock_accept, observer_sock_bind, observer_sock_connect, observer_sock_listen,
  observer_sock_open, observer_sock_recv, observer_sock_recv_from, observer_sock_send,
  observer_sock_send_to, observer_sock_shutdown,
}
use timecraft.Wasicall.Observer.SockInfo.{
  observer_sock_address_info, observer_sock_get_opt, observer_sock_local_address,
  observer_sock_remote_address, observer_sock_set_opt,
}
use timecraft.Wasicall.Sockets.{AddressInfo, no_address, no_value}
use timecraft.Wasicall.Syscall.Call.{Syscall}
use timecraft.Wasicall.Syscall.Ids.{SyscallId}
use timecraft.Wasicall.System.{zero_fd_stat, zero_file_stat, zero_of, zero_pre_stat}
use timecraft.Wasicall.System.Exchange.{made, request_id}
use timecraft.Wasicall.System.Request.{Outcome, Request, Response, System, nil_function}
use timecraft.Wasicall.Wasi.{Wasi}

module _ ⦃w : Wasi⦄ where
  -- The call before it is made, with zero results.
  unfoldable pub asked : Request → Syscall
  asked Request.args_sizes_get = Syscall.args_sizes_get (pos 0) (pos 0) (zero_of w.errno)
  asked Request.args_get = Syscall.args_get [] (zero_of w.errno)
  asked Request.environ_sizes_get = Syscall.environ_sizes_get (pos 0) (pos 0) (zero_of w.errno)
  asked Request.environ_get = Syscall.environ_get [] (zero_of w.errno)
  asked (Request.clock_res_get clock_id) =
      Syscall.clock_res_get clock_id (zero_of w.timestamp) (zero_of w.errno)
  asked (Request.clock_time_get clock_id precision) =
      Syscall.clock_time_get clock_id precision (zero_of w.timestamp) (zero_of w.errno)
  asked (Request.fd_advise fd offset length advice) =
      Syscall.fd_advise fd offset length advice (zero_of w.errno)
  asked (Request.fd_allocate fd offset length) =
      Syscall.fd_allocate fd offset length (zero_of w.errno)
  asked (Request.fd_close fd) = Syscall.fd_close fd (zero_of w.errno)
  asked (Request.fd_data_sync fd) = Syscall.fd_data_sync fd (zero_of w.errno)
  asked (Request.fd_stat_get fd) = Syscall.fd_stat_get fd zero_fd_stat (zero_of w.errno)
  asked (Request.fd_stat_set_flags fd flags) = Syscall.fd_stat_set_flags fd flags (zero_of w.errno)
  asked (Request.fd_stat_set_rights fd rights_base rights_inheriting) =
      Syscall.fd_stat_set_rights fd rights_base rights_inheriting (zero_of w.errno)
  asked (Request.fd_file_stat_get fd) = Syscall.fd_file_stat_get fd zero_file_stat (zero_of w.errno)
  asked (Request.fd_file_stat_set_size fd size) =
      Syscall.fd_file_stat_set_size fd size (zero_of w.errno)
  asked (Request.fd_file_stat_set_times fd access_time modify_time flags) =
      Syscall.fd_file_stat_set_times fd access_time modify_time flags (zero_of w.errno)
  asked (Request.fd_pread fd iovecs offset) = Syscall.fd_pread fd iovecs offset 0 (zero_of w.errno)
  asked (Request.fd_pre_stat_get fd) = Syscall.fd_pre_stat_get fd zero_pre_stat (zero_of w.errno)
  asked (Request.fd_pre_stat_dir_name fd) = Syscall.fd_pre_stat_dir_name fd [] (zero_of w.errno)
  asked (Request.fd_pwrite fd iovecs offset) =
      Syscall.fd_pwrite fd iovecs offset 0 (zero_of w.errno)
  asked (Request.fd_read fd iovecs) = Syscall.fd_read fd iovecs 0 (zero_of w.errno)
  asked (Request.fd_read_dir fd entries cookie buffer_size_bytes) =
      Syscall.fd_read_dir fd entries cookie buffer_size_bytes (zero_of w.errno)
  asked (Request.fd_renumber from to) = Syscall.fd_renumber from to (zero_of w.errno)
  asked (Request.fd_seek fd offset whence) =
      Syscall.fd_seek fd offset whence (zero_of w.file_size) (zero_of w.errno)
  asked (Request.fd_sync fd) = Syscall.fd_sync fd (zero_of w.errno)
  asked (Request.fd_tell fd) = Syscall.fd_tell fd (zero_of w.file_size) (zero_of w.errno)
  asked (Request.fd_write fd iovecs) = Syscall.fd_write fd iovecs 0 (zero_of w.errno)
  asked (Request.path_create_directory fd path) =
      Syscall.path_create_directory fd path (zero_of w.errno)
  asked (Request.path_file_stat_get fd lookup_flags path) =
      Syscall.path_file_stat_get fd lookup_flags path zero_file_stat (zero_of w.errno)
  asked (Request.path_file_stat_set_times fd lookup_flags path access_time modify_time flags) =
      Syscall.path_file_stat_set_times fd lookup_flags path access_time modify_time flags
        (zero_of w.errno)
  asked (Request.path_link old_fd old_flags old_path new_fd new_path) =
      Syscall.path_link old_fd old_flags old_path new_fd new_path (zero_of w.errno)
  asked (Request.path_open fd dir_flags path open_flags rights_base rights_inheriting fd_flags) =
      Syscall.path_open fd dir_flags path open_flags rights_base rights_inheriting fd_flags
        (zero_of w.fd) (zero_of w.errno)
  asked (Request.path_read_link fd path buffer) =
      Syscall.path_read_link fd path buffer (zero_of w.errno)
  asked (Request.path_remove_directory fd path) =
      Syscall.path_remove_directory fd path (zero_of w.errno)
  asked (Request.path_rename fd old_path new_fd new_path) =
      Syscall.path_rename fd old_path new_fd new_path (zero_of w.errno)
  asked (Request.path_symlink old_path fd new_path) =
      Syscall.path_symlink old_path fd new_path (zero_of w.errno)
  asked (Request.path_unlink_file fd path) = Syscall.path_unlink_file fd path (zero_of w.errno)
  asked (Request.poll_one_off subscriptions events) =
      Syscall.poll_one_off subscriptions events (zero_of w.errno)
  asked (Request.proc_exit exit_code) = Syscall.proc_exit exit_code (zero_of w.errno)
  asked (Request.proc_raise signal) = Syscall.proc_raise signal (zero_of w.errno)
  asked Request.sched_yield = Syscall.sched_yield (zero_of w.errno)
  asked (Request.random_get b) = Syscall.random_get b (zero_of w.errno)
  asked (Request.sock_accept fd flags) =
      Syscall.sock_accept fd flags (zero_of w.fd) no_address no_address (zero_of w.errno)
  asked (Request.sock_recv fd iovecs iflags) =
      Syscall.sock_recv fd iovecs iflags 0 (zero_of w.ro_flags) (zero_of w.errno)
  asked (Request.sock_send fd iovecs iflags) =
      Syscall.sock_send fd iovecs iflags 0 (zero_of w.errno)
  asked (Request.sock_shutdown fd flags) = Syscall.sock_shutdown fd flags (zero_of w.errno)
  asked (Request.sock_open family socket_type protocol rights_base rights_inheriting) =
      Syscall.sock_open family socket_type protocol rights_base rights_inheriting (zero_of w.fd)
        (zero_of w.errno)
  asked (Request.sock_bind fd bind) = Syscall.sock_bind fd bind no_address (zero_of w.errno)
  asked (Request.sock_connect fd peer) = Syscall.sock_connect fd peer no_address (zero_of w.errno)
  asked (Request.sock_listen fd backlog) = Syscall.sock_listen fd backlog (zero_of w.errno)
  asked (Request.sock_send_to fd iovecs iflags addr) =
      Syscall.sock_send_to fd iovecs iflags addr 0 (zero_of w.errno)
  asked (Request.sock_recv_from fd iovecs iflags) =
      Syscall.sock_recv_from fd iovecs iflags 0 (zero_of w.ro_flags) no_address (zero_of w.errno)
  asked (Request.sock_get_opt fd option) = Syscall.sock_get_opt fd option no_value (zero_of w.errno)
  asked (Request.sock_set_opt fd option value) =
      Syscall.sock_set_opt fd option value (zero_of w.errno)
  asked (Request.sock_local_address fd) = Syscall.sock_local_address fd no_address (zero_of w.errno)
  asked (Request.sock_remote_address fd) =
      Syscall.sock_remote_address fd no_address (zero_of w.errno)
  asked (Request.sock_address_info name service hints results) =
      Syscall.sock_address_info name service hints results (zero_of w.errno)

module _ ⦃w : Wasi⦄ where
  -- The call with its answer.
  abbrev pub told : (q : Request) → Response q → Syscall
  told (Request.proc_exit exit_code) errno = Syscall.proc_exit exit_code errno
  told q response = made q response

module _ ⦃w : Wasi⦄ {Fault S T : Type 0} where
  observing-ok :
      {A : Type 0} (after : Option (Syscall → T → T)) (outcome : Outcome Fault A S) (t : T)
      (describe : A → Syscall) {response : A} {s : S}
      → outcome ≡ (ok response, s)
      → observing after outcome t describe ≡ (ok response, (s, notify after (describe response) t))
  unfolding observing
  observing-ok after outcome t describe e = ap (λ o. observing after o t describe) e

  observing_swapped-ok :
      {A : Type 0} (before : Option (Syscall → T → T)) (after : Syscall → T → T)
      (outcome : Outcome Fault A S) (t : T) (describe : A → Syscall) {response : A} {s : S}
      → outcome ≡ (ok response, s)
      → observing_swapped before (some after) outcome t describe
        ≡ observing_swapped before (some after) (ok response, s) t describe
  observing_swapped-ok before after outcome t describe e =
      ap (λ o. observing_swapped before (some after) o t describe) e

  -- Where the system answers a call other than SockAddressInfo, the observer gives this answer, having
  -- told the first callback the call with zero results and then the second the call with the answer:
  -- what a recorder writes of it, or of ProcExit, for which a recorder writes ESUCCESS, the errno.
  pub observer-answered :
      (system : System Fault S) (before after : Option (Syscall → T → T)) (q : Request)
      (response : Response q) (s s1 : S) (t : T)
      → system q s ≡ (ok response, s1)
      → request_id q ≢ SyscallId.sock_address_info
      → observer system before after q (s, t)
        ≡ (ok response, (s1, notify after (told q response) (notify before (asked q) t)))
  unfolding observer made asked request_id observer_args_sizes_get observer_args_get
      observer_environ_sizes_get observer_environ_get observer_clock_res_get observer_clock_time_get
      observer_fd_advise observer_fd_allocate observer_fd_close observer_fd_data_sync
      observer_fd_stat_get observer_fd_stat_set_flags observer_fd_stat_set_rights
      observer_fd_file_stat_get observer_fd_file_stat_set_size observer_fd_file_stat_set_times
      observer_fd_pread observer_fd_pre_stat_get observer_fd_pre_stat_dir_name observer_fd_pwrite
      observer_fd_read observer_fd_read_dir observer_fd_renumber observer_fd_seek observer_fd_sync
      observer_fd_tell observer_fd_write observer_path_create_directory observer_path_file_stat_get
      observer_path_file_stat_set_times observer_path_link observer_path_open
      observer_path_read_link observer_path_remove_directory observer_path_rename
      observer_path_symlink observer_path_unlink_file observer_poll_one_off observer_proc_exit
      observer_proc_raise observer_sched_yield observer_random_get observer_sock_accept
      observer_sock_recv observer_sock_send observer_sock_shutdown observer_sock_open
      observer_sock_bind observer_sock_connect observer_sock_listen observer_sock_send_to
      observer_sock_recv_from observer_sock_get_opt observer_sock_set_opt
      observer_sock_local_address observer_sock_remote_address observer_sock_address_info
  observer-answered system before after (Request.sock_address_info _ _ _ _) response s s1 t e
        other =
      absurd (other refl)
  observer-answered system before after _ response s s1 t e other = observing-ok after _ _ _ e

  observing-same :
      {A : Type 0} (after : Option (Syscall → T → T)) (outcome : Outcome Fault A S) (t : T)
      (describe : A → Syscall)
      → ((observing after outcome t describe).0 ≡ outcome.0)
        × ((observing after outcome t describe).1.0 ≡ outcome.1)
  unfolding observing
  observing-same after (ok response, s) t describe = (refl, refl)
  observing-same after (err panic, s) t describe = (refl, refl)

  observing_swapped-same :
      {A : Type 0} (before after : Option (Syscall → T → T)) (outcome : Outcome Fault A S) (t : T)
      (describe : A → Syscall)
      → (before ≡ none → after ≡ none)
      → ((observing_swapped before after outcome t describe).0 ≡ outcome.0)
        × ((observing_swapped before after outcome t describe).1.0 ≡ outcome.1)
  unfolding observing_swapped
  observing_swapped-same before after (err panic, s) t describe set = (refl, refl)
  observing_swapped-same before none (ok response, s) t describe set = (refl, refl)
  observing_swapped-same none (some callback) (ok response, s) t describe set =
      absurd (cc (set refl))
  observing_swapped-same (some earlier) (some callback) (ok response, s) t describe set =
      (refl, refl)

  -- Callbacks that are both set, or both nil, or of which only the first is set, leave the outcome and
  -- the state of the system as they would be without the observer.
  pub observer-transparent :
      (system : System Fault S) (before after : Option (Syscall → T → T)) (q : Request) (s : S)
      (t : T)
      → (before ≡ none → after ≡ none)
      → ((observer system before after q (s, t)).0 ≡ (system q s).0)
        × ((observer system before after q (s, t)).1.0 ≡ (system q s).1)
  unfolding observer observer_args_sizes_get observer_args_get observer_environ_sizes_get
      observer_environ_get observer_clock_res_get observer_clock_time_get observer_fd_advise
      observer_fd_allocate observer_fd_close observer_fd_data_sync observer_fd_stat_get
      observer_fd_stat_set_flags observer_fd_stat_set_rights observer_fd_file_stat_get
      observer_fd_file_stat_set_size observer_fd_file_stat_set_times observer_fd_pread
      observer_fd_pre_stat_get observer_fd_pre_stat_dir_name observer_fd_pwrite observer_fd_read
      observer_fd_read_dir observer_fd_renumber observer_fd_seek observer_fd_sync observer_fd_tell
      observer_fd_write observer_path_create_directory observer_path_file_stat_get
      observer_path_file_stat_set_times observer_path_link observer_path_open
      observer_path_read_link observer_path_remove_directory observer_path_rename
      observer_path_symlink observer_path_unlink_file observer_poll_one_off observer_proc_exit
      observer_proc_raise observer_sched_yield observer_random_get observer_sock_accept
      observer_sock_recv observer_sock_send observer_sock_shutdown observer_sock_open
      observer_sock_bind observer_sock_connect observer_sock_listen observer_sock_send_to
      observer_sock_recv_from observer_sock_get_opt observer_sock_set_opt
      observer_sock_local_address observer_sock_remote_address observer_sock_address_info
  observer-transparent system before after (Request.sock_address_info _ _ _ _) s t set =
      observing_swapped-same before after (system _ s) _ _ set
  observer-transparent system before after _ s t set = observing-same after (system _ s) _ _

  -- SockAddressInfo with only the callback after the call set: where the system answers, the observer
  -- panics, since it calls the other one. With both set, the first is told of the call twice, before
  -- it and after it, and the second is never called.
  pub observer_sock_address_info-swapped :
      (system : System Fault S) (before after : Syscall → T → T) (name service : List ℕ)
      (hints : AddressInfo) (results : List AddressInfo)
      (response : Response (Request.sock_address_info name service hints results)) (s s1 : S)
      (t : T)
      → system (Request.sock_address_info name service hints results) s ≡ (ok response, s1)
      → (observer system none
            (some after)
            (Request.sock_address_info name service hints results)
            (s, t)
          ≡ (err nil_function, (s1, t)))
        × (observer system
              (some before)
              (some after)
              (Request.sock_address_info name service hints results)
              (s, t)
            ≡ (
              ok response,
              (
                s1,
                before
                    (made (Request.sock_address_info name service hints results) response)
                    (before (asked (Request.sock_address_info name service hints results)) t),
              ),
            ))
  unfolding observer observer_sock_address_info observing_swapped asked made
  observer_sock_address_info-swapped system before after name service hints results response s s1 t
        e =
      (observing_swapped-ok none after _ _ _ e, observing_swapped-ok (some before) after _ _ _ e)
