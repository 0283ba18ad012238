-- ===== src/Wasicall/Calls/SockInfo/RoundTrip.antt =====
-- The round trips of the codec of sockets: options and addresses.
use timecraft.Common.{List, [], refl, ℕ, ◌++◌, ◌≡◌}
use timecraft.Common.Result.{ok}
use timecraft.Wasicall.Calls.SockInfo.{
  decode_sock_address_info, decode_sock_get_opt, decode_sock_local_address,
  decode_sock_remote_address, decode_sock_set_opt, encode_sock_address_info, encode_sock_get_opt,
  encode_sock_local_address, encode_sock_remote_address, encode_sock_set_opt,
}
use timecraft.Wasicall.Lists.{list_codec}
use timecraft.Wasicall.Sockets.{AddressInfo, SocketAddress, SocketOptionValue}
use timecraft.Wasicall.Sockets.RoundTrip.{
  IsAddress, IsOptionValue, address_codec, address_info_codec, encode_address_info-append,
  encode_address_infos-append, encode_socket_address-append, encode_socket_option_value-append,
  option_value_codec,
}
use timecraft.Wasicall.Wasi.{Errno, Fd, SocketOption, Wasi}
use timecraft.Wasicall.Words.RoundTrip.{Fits, appended, read_then, scalar32, scalar64, string_codec}

module _ ⦃w : Wasi⦄ where
  pub sock_get_opt_lem :
      (fd : Fd) (option : SocketOption) (value : SocketOptionValue) (errno : Errno) (rest : List ℕ)
      → IsOptionValue value
      → Fits (encode_sock_get_opt [] fd option value errno ++ rest)
      → decode_sock_get_opt (encode_sock_get_opt [] fd option value errno ++ rest)
        ≡ ok (fd, option, value, errno)
  unfolding encode_sock_get_opt decode_sock_get_opt
  sock_get_opt_lem fd option value errno rest valid_value fits =
      let fits = simp (appended, encode_socket_option_value-append) at fits in
      simp (appended, encode_socket_option_value-append)
        (read_then (scalar32 w.errno) errno _ tt fits λ fits.
          read_then (scalar32 w.fd) fd _ tt fits λ fits.
            read_then (scalar64 w.socket_option) option _ tt fits
              λ fits. read_then option_value_codec value _ valid_value fits λ fits. refl)

  pub sock_set_opt_lem :
      (fd : Fd) (option : SocketOption) (value : SocketOptionValue) (errno : Errno) (rest : List ℕ)
      → IsOptionValue value
      → Fits (encode_sock_set_opt [] fd option value errno ++ rest)
      → decode_sock_set_opt (encode_sock_set_opt [] fd option value errno ++ rest)
        ≡ ok (fd, option, value, errno)
  unfolding encode_sock_set_opt decode_sock_set_opt
  sock_set_opt_lem fd option value errno rest valid_value fits =
      let fits = simp (appended, encode_socket_option_value-append) at fits in
      simp (appended, encode_socket_option_value-append)
        (read_then (scalar32 w.errno) errno _ tt fits λ fits.
          read_then (scalar32 w.fd) fd _ tt fits λ fits.
            read_then (scalar64 w.socket_option) option _ tt fits
              λ fits. read_then option_value_codec value _ valid_value fits λ fits. refl)

  pub sock_local_address_lem :
      (fd : Fd) (addr : SocketAddress) (errno : Errno) (rest : List ℕ)
      → IsAddress addr
      → Fits (encode_sock_local_address [] fd addr errno ++ rest)
      → decode_sock_local_address (encode_sock_local_address [] fd addr errno ++ rest)
        ≡ ok (fd, addr, errno)
  unfolding encode_sock_local_address decode_sock_local_address
  sock_local_address_lem fd addr errno rest valid_addr fits =
      let fits = simp (appended, encode_socket_address-append) at fits in
      simp (appended, encode_socket_address-append)
        (read_then (scalar32 w.errno) errno _ tt fits λ fits.
          read_then (scalar32 w.fd) fd _ tt fits
            λ fits. read_then address_codec addr _ valid_addr fits λ fits. refl)

  pub sock_remote_address_lem :
      (fd : Fd) (addr : SocketAddress) (errno : Errno) (rest : List ℕ)
      → IsAddress addr
      → Fits (encode_sock_remote_address [] fd addr errno ++ rest)
      → decode_sock_remote_address (encode_sock_remote_address [] fd addr errno ++ rest)
        ≡ ok (fd, addr, errno)
  unfolding encode_sock_remote_address decode_sock_remote_address
  sock_remote_address_lem fd addr errno rest valid_addr fits =
      let fits = simp (appended, encode_socket_address-append) at fits in
      simp (appended, encode_socket_address-append)
        (read_then (scalar32 w.errno) errno _ tt fits λ fits.
          read_then (scalar32 w.fd) fd _ tt fits
            λ fits. read_then address_codec addr _ valid_addr fits λ fits. refl)

  pub sock_address_info_lem :
      (name : List ℕ) (service : List ℕ) (hint : AddressInfo) (results : List AddressInfo)
      (errno : Errno) (rest : List ℕ)
      → IsAddress hint.address
      → (list_codec address_info_codec).IsValid results
      → Fits (encode_sock_address_info [] name service hint results errno ++ rest)
      → decode_sock_address_info
          (encode_sock_address_info [] name service hint results errno ++ rest)
        ≡ ok (name, service, hint, results, errno)
  unfolding encode_sock_address_info decode_sock_address_info
  sock_address_info_lem name service hint results errno rest valid_hint valid_results fits =
      let fits = simp (appended, encode_address_info-append, encode_address_infos-append) at fits in
      simp (appended, encode_address_info-append, encode_address_infos-append)
        (read_then (scalar32 w.errno) errno _ tt fits λ fits.
          read_then string_codec name _ tt fits λ fits.
            read_then string_codec service _ tt fits λ fits.
              read_then address_info_codec hint _ valid_hint fits λ fits.
                read_then (list_codec address_info_codec) results _ valid_results fits λ fits. refl)
