-- ===== src/Engine/Arp.antt =====
-- src/include/arp.h: the header and the handler, which resolves IP addresses to those of the link.
mod Resolution
mod Tests
use machnet.Base.{
  ℕ, ◌+◌, ◌-◌, ◌^◌, Bool, true, false, not, ◌||◌, ◌&&◌, Option, none, some, List, [], ◌∷◌, ◌==◌,
  if◌then◌else◌,
}
use machnet.Base.Maps.{find, insert, nat_eq}

-- A member of the set of local addresses
unfoldable pub is_member : ℕ → List ℕ → Bool
is_member a [] = false
is_member a (b ∷ bs) = b == a || is_member a bs

abbrev pub arp_request : ℕ
arp_request = 1

abbrev pub arp_reply : ℕ
arp_reply = 2

abbrev pub ethernet_hw_type : ℕ
ethernet_hw_type = 1

abbrev pub ethernet_len : ℕ
ethernet_len = 6

abbrev pub ipv4_len : ℕ
ipv4_len = 4

abbrev pub eth_type_ipv4 : ℕ
eth_type_ipv4 = 0x800

abbrev pub eth_type_arp : ℕ
eth_type_arp = 0x806

abbrev pub broadcast_addr : ℕ
broadcast_addr = 2 ^ 48 - 1

abbrev pub zero_addr : ℕ
zero_addr = 0

pub record ArpHeader : Type 0 where
  pub htype : ℕ
  pub ptype : ℕ
  pub hlen : ℕ
  pub plen : ℕ
  pub op : ℕ
  pub sha : ℕ
  pub spa : ℕ
  pub tha : ℕ
  pub tpa : ℕ

pub record ArpFrame : Type 0 where
  pub src_addr : ℕ
  pub dst_addr : ℕ
  pub eth_type : ℕ
  pub arp : ArpHeader

-- `tx` logs the frames for the TX ring, newest first; `packet_allocs` counts the allocations.
pub record ArpHandler : Type 0 where
  pub local_l2addr : ℕ
  pub local_ip_addrs : List ℕ
  pub arp_table : List (ℕ × ℕ)
  pub tx : List ArpFrame
  pub packet_allocs : ℕ
  pub aborted : Bool

-- The constructor's loop, whose CHECK refuses an address that is given twice.
unfoldable pub new_arp_handler : ℕ → List ℕ → Option ArpHandler
unfolding is_member
new_arp_handler l2addr [] = some (record {
  local_l2addr = l2addr;
  local_ip_addrs = [];
  arp_table = [];
  tx = [];
  packet_allocs = 0;
  aborted = false;
})
new_arp_handler l2addr (addr ∷ addrs) = elim (new_arp_handler l2addr addrs) [
  | none ↦ none
  | some h ↦
      if is_member addr h.local_ip_addrs
      then none
      else some (record h { local_ip_addrs = addr ∷ h.local_ip_addrs })
]

unfoldable pub add_local_ip_addr : ℕ → ArpHandler → ArpHandler
unfolding is_member
add_local_ip_addr addr h =
    if is_member addr h.local_ip_addrs
    then h
    else record h { local_ip_addrs = addr ∷ h.local_ip_addrs }

-- The frame of RequestL2Addr
abbrev pub request_frame : ℕ → ℕ → ArpHandler → ArpFrame
request_frame local_ip target_ip h = record {
  src_addr = h.local_l2addr;
  dst_addr = broadcast_addr;
  eth_type = eth_type_arp;
  arp = record {
    htype = ethernet_hw_type;
    ptype = eth_type_ipv4;
    hlen = ethernet_len;
    plen = ipv4_len;
    op = arp_request;
    sha = h.local_l2addr;
    spa = local_ip;
    tha = zero_addr;
    tpa = target_ip;
  };
}

-- The frame of Reply
abbrev pub reply_frame : ArpHeader → ℕ → ArpHandler → ArpFrame
reply_frame rx local_ip h = record {
  src_addr = h.local_l2addr;
  dst_addr = rx.sha;
  eth_type = eth_type_arp;
  arp = record {
    htype = ethernet_hw_type;
    ptype = eth_type_ipv4;
    hlen = ethernet_len;
    plen = ipv4_len;
    op = arp_reply;
    sha = h.local_l2addr;
    spa = local_ip;
    tha = rx.sha;
    tpa = rx.spa;
  };
}

-- The checks of the header's constants
abbrev pub is_ethernet_ipv4 : ArpHeader → Bool
is_ethernet_ipv4 a =
    a.htype == ethernet_hw_type
    && a.ptype == eth_type_ipv4
    && (a.hlen == ethernet_len && a.plen == ipv4_len)

module _ (packet_alloc : ℕ → Bool) where
  -- A packet, with its CHECK, and its transmission
  unfoldable pub send_frame : ArpFrame → ArpHandler → ArpHandler
  send_frame frame h =
      let h' = record h { packet_allocs = h.packet_allocs + 1 } in
      if packet_alloc h.packet_allocs
      then record h' { tx = frame ∷ h'.tx }
      else record h' { aborted = true }

  unfoldable pub request_l2_addr : ℕ → ℕ → ArpHandler → ArpHandler
  unfolding send_frame
  request_l2_addr local_ip target_ip h = send_frame (request_frame local_ip target_ip h) h

  unfoldable pub reply : ArpHeader → ℕ → ArpHandler → ArpHandler
  unfolding send_frame
  reply rx local_ip h = send_frame (reply_frame rx local_ip h) h

  unfoldable pub get_l2_addr : ℕ → ℕ → ArpHandler → Option ℕ × ArpHandler
  get_l2_addr local_ip target_ip h = elim (find target_ip h.arp_table) [
    | some l2 ↦ (some l2, h)
    | none ↦ (none, request_l2_addr local_ip target_ip h)
  ]

  unfoldable pub process_arp_packet : ArpHeader → ArpHandler → ArpHandler
  process_arp_packet a h =
      if not (is_ethernet_ipv4 a)
      then h
      else if a.op == arp_request
      then (if not (is_member a.tpa h.local_ip_addrs) then h else reply a a.tpa h)
      else if a.op == arp_reply
      then (if not (is_member a.tpa h.local_ip_addrs)
          then h
          else record h { arp_table = insert a.spa a.sha h.arp_table })
      else h
