-- ===== src/Tcp/Options.antt =====
-- src/include/tcp_flow.h, `ParseTcpOptions`: the MSS option of a SYN or SYN-ACK.
use machnet.Base.{
  ℕ, zero, suc, ◌+◌, ◌-◌, ◌&&◌, ◌||◌, List, get_or, ltb, leb, ◌==◌, if◌then◌else◌, be16toh,
}
use machnet.Tcp.Flow.{TcpFlow, tcp_size, default_mss}

-- The MSS that an option announces; 0 stands for the default.
unfoldable pub announced_mss : ℕ → ℕ → ℕ
unfolding be16toh
announced_mss hi lo = let mss = be16toh hi lo in if mss == 0 then default_mss else mss

module _ (opts : List ℕ) (opts_len : ℕ) where
  -- The loop from `opts[i]` on. Each round moves `i`, so fuel for `opts_len` rounds is enough.
  unfoldable pub parse_loop : ℕ → ℕ → ℕ → ℕ
  unfolding announced_mss
  parse_loop zero i peer_mss = peer_mss
  parse_loop (suc fuel) i peer_mss =
      let kind = get_or opts i 0 in
      let opt_len = get_or opts (i + 1) 0 in
      let mss = announced_mss (get_or opts (i + 2) 0) (get_or opts (i + 3) 0) in
      let after_nop = parse_loop fuel (i + 1) peer_mss in
      let after_option =
        parse_loop fuel (i + opt_len) (if kind == 2 && opt_len == 4 then mss else peer_mss) in
      if leb opts_len i
      then peer_mss
      else if kind == 0
      then peer_mss
      else if kind == 1
      then after_nop
      else if leb opts_len (i + 1)
      then peer_mss
      else if ltb opt_len 2 || ltb opts_len (i + opt_len)
      then peer_mss
      else after_option

unfoldable pub parse_tcp_options : List ℕ → ℕ → TcpFlow → TcpFlow
parse_tcp_options opts hdr_len f = if leb hdr_len tcp_size then f else record f {
  peer_mss = parse_loop opts (hdr_len - tcp_size) (hdr_len - tcp_size) 0 f.peer_mss;
}
