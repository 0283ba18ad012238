-- ===== src/Wasicall/Syscall/Ids.antt =====
-- internal/timemachine/wasicall/syscall.go: SyscallID, whose values count from zero in the order
-- of the constants.
use timecraft.Common.{List, Option, [], get_elem?, refl, some, ℕ, ◌∷◌, ◌≡◌}

pub data SyscallId : Type 0 where
  args_sizes_get args_get environ_sizes_get environ_get : SyscallId
  clock_res_get clock_time_get fd_advise fd_allocate : SyscallId
  fd_close fd_data_sync fd_stat_get fd_stat_set_flags : SyscallId
  fd_stat_set_rights fd_file_stat_get fd_file_stat_set_size fd_file_stat_set_times : SyscallId
  fd_pread fd_pre_stat_get fd_pre_stat_dir_name fd_pwrite : SyscallId
  fd_read fd_read_dir fd_renumber fd_seek : SyscallId
  fd_sync fd_tell fd_write path_create_directory : SyscallId
  path_file_stat_get path_file_stat_set_times path_link path_open : SyscallId
  path_read_link path_remove_directory path_rename path_symlink : SyscallId
  path_unlink_file poll_one_off proc_exit proc_raise : SyscallId
  sched_yield random_get sock_accept sock_recv : SyscallId
  sock_send sock_shutdown sock_open sock_bind : SyscallId
  sock_connect sock_listen sock_send_to sock_recv_from : SyscallId
  sock_get_opt sock_set_opt sock_local_address sock_remote_address : SyscallId
  sock_address_info : SyscallId

unfoldable pub id_number : SyscallId → ℕ
id_number args_sizes_get = 0
id_number args_get = 1
id_number environ_sizes_get = 2
id_number environ_get = 3
id_number clock_res_get = 4
id_number clock_time_get = 5
id_number fd_advise = 6
id_number fd_allocate = 7
id_number fd_close = 8
id_number fd_data_sync = 9
id_number fd_stat_get = 10
id_number fd_stat_set_flags = 11
id_number fd_stat_set_rights = 12
id_number fd_file_stat_get = 13
id_number fd_file_stat_set_size = 14
id_number fd_file_stat_set_times = 15
id_number fd_pread = 16
id_number fd_pre_stat_get = 17
id_number fd_pre_stat_dir_name = 18
id_number fd_pwrite = 19
id_number fd_read = 20
id_number fd_read_dir = 21
id_number fd_renumber = 22
id_number fd_seek = 23
id_number fd_sync = 24
id_number fd_tell = 25
id_number fd_write = 26
id_number path_create_directory = 27
id_number path_file_stat_get = 28
id_number path_file_stat_set_times = 29
id_number path_link = 30
id_number path_open = 31
id_number path_read_link = 32
id_number path_remove_directory = 33
id_number path_rename = 34
id_number path_symlink = 35
id_number path_unlink_file = 36
id_number poll_one_off = 37
id_number proc_exit = 38
id_number proc_raise = 39
id_number sched_yield = 40
id_number random_get = 41
id_number sock_accept = 42
id_number sock_recv = 43
id_number sock_send = 44
id_number sock_shutdown = 45
id_number sock_open = 46
id_number sock_bind = 47
id_number sock_connect = 48
id_number sock_listen = 49
id_number sock_send_to = 50
id_number sock_recv_from = 51
id_number sock_get_opt = 52
id_number sock_set_opt = 53
id_number sock_local_address = 54
id_number sock_remote_address = 55
id_number sock_address_info = 56

abbrev pub syscall_ids : List SyscallId
syscall_ids =
    args_sizes_get ∷ args_get ∷ environ_sizes_get ∷ environ_get ∷ clock_res_get ∷ clock_time_get
    ∷ fd_advise ∷ fd_allocate ∷ fd_close ∷ fd_data_sync ∷ fd_stat_get ∷ fd_stat_set_flags
    ∷ fd_stat_set_rights ∷ fd_file_stat_get ∷ fd_file_stat_set_size ∷ fd_file_stat_set_times
    ∷ fd_pread ∷ fd_pre_stat_get ∷ fd_pre_stat_dir_name ∷ fd_pwrite ∷ fd_read ∷ fd_read_dir
    ∷ fd_renumber ∷ fd_seek ∷ fd_sync ∷ fd_tell ∷ fd_write ∷ path_create_directory
    ∷ path_file_stat_get ∷ path_file_stat_set_times ∷ path_link ∷ path_open ∷ path_read_link
    ∷ path_remove_directory ∷ path_rename ∷ path_symlink ∷ path_unlink_file ∷ poll_one_off
    ∷ proc_exit ∷ proc_raise ∷ sched_yield ∷ random_get ∷ sock_accept ∷ sock_recv ∷ sock_send
    ∷ sock_shutdown ∷ sock_open ∷ sock_bind ∷ sock_connect ∷ sock_listen ∷ sock_send_to
    ∷ sock_recv_from ∷ sock_get_opt ∷ sock_set_opt ∷ sock_local_address ∷ sock_remote_address
    ∷ sock_address_info ∷ []

-- The constant that a number converts to, if it is one of them.
unfoldable pub from_number : ℕ → Option SyscallId
from_number n = get_elem? syscall_ids n

pub from_number-id_number : (i : SyscallId) → from_number (id_number i) ≡ some i
unfolding from_number id_number
from_number-id_number args_sizes_get = refl
from_number-id_number _ = refl
