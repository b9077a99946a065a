-- ===== src/Engine/Arp/Resolution.antt =====
-- src/include/arp.h: what a handler learns, and the exchange of two handlers.
use machnet.Base.{
  ℕ, ◌+◌, ◌≡◌, refl, ap, ◌∙◌, Bool, true, ◌&&◌, none, some, ◌∷◌, arith, ◌==◌, if◌then◌else◌,
}
use machnet.Base.Maps.{find, nat_eq, find-insert, beq_self}
use machnet.Engine.Arp.{
  ArpHeader, ArpHandler, arp_request, arp_reply, is_member, is_ethernet_ipv4, request_frame,
  reply_frame, request_l2_addr, reply, get_l2_addr, process_arp_packet, send_frame,
}

-- The packets from which a handler learns: well-formed replies to one of its own addresses.
abbrev pub teaches : ArpHeader → ArpHandler → Bool
teaches a h = is_ethernet_ipv4 a && a.op == arp_reply && is_member a.tpa h.local_ip_addrs

-- The packets that a handler answers: well-formed requests for one of its own addresses.
abbrev pub asks : ArpHeader → ArpHandler → Bool
asks a h = is_ethernet_ipv4 a && a.op == arp_request && is_member a.tpa h.local_ip_addrs

module _ (packet_alloc : ℕ → Bool) where
  -- While packets can be allocated, `ProcessArpPacket` learns the sender's address from a well-formed
  -- reply to one of the handler's own addresses, and from nothing else; it answers a well-formed
  -- request for one of these with its own address of the link, and sends nothing else; and it
  -- changes neither its addresses nor any other entry.
  pub process_arp_packet_lem :
      (a : ArpHeader) (h : ArpHandler) (ip : ℕ)
      → ((n : ℕ) → packet_alloc n ≡ true)
      → let g = process_arp_packet packet_alloc a h in
        (find ip g.arp_table
          ≡ (if teaches a h && a.spa == ip then some a.sha else find ip h.arp_table))
        × (g.tx ≡ (if asks a h then reply_frame a a.tpa h ∷ h.tx else h.tx))
        × (g.local_ip_addrs ≡ h.local_ip_addrs)
        × (g.local_l2addr ≡ h.local_l2addr)
        × (g.aborted ≡ h.aborted)
  unfolding process_arp_packet reply send_frame
  process_arp_packet_lem a h ip allocates =
      ground (arith, allocates h.packet_allocs, find-insert a.spa ip a.sha h.arp_table)

  get_l2_addr_there :
      (a b l2 : ℕ) (h : ArpHandler)
      → find b h.arp_table ≡ some l2
      → get_l2_addr packet_alloc a b h ≡ (some l2, h)
  unfolding get_l2_addr
  get_l2_addr_there a b l2 h e = rw (e, get_l2_addr) refl

  get_l2_addr_missing :
      (a b : ℕ) (h : ArpHandler)
      → ((n : ℕ) → packet_alloc n ≡ true)
      → find b h.arp_table ≡ none
      → get_l2_addr packet_alloc a b h
        ≡ (none, record h { packet_allocs = h.packet_allocs + 1; tx = request_frame a b h ∷ h.tx })
  unfolding get_l2_addr request_l2_addr send_frame
  get_l2_addr_missing a b h allocates e = rw (e, get_l2_addr, allocates h.packet_allocs) refl

  -- The exchange of two handlers of a network, while packets can be allocated. The first asks for an
  -- address that it does not know, at one of its own addresses, and `GetL2Addr` gives none and sends a
  -- request; the second, whose address it is, answers the request; and after the answer `GetL2Addr`
  -- gives the second one's address of the link and sends nothing more.
  pub get_l2_addr_resolves :
      (a b : ℕ) (g h : ArpHandler)
      → ((n : ℕ) → packet_alloc n ≡ true)
      → is_member a g.local_ip_addrs ≡ true
      → is_member b h.local_ip_addrs ≡ true
      → find b g.arp_table ≡ none
      → let request = request_frame a b g in
        let answer = reply_frame request.arp b h in
        let (unknown, g1) = get_l2_addr packet_alloc a b g in
        let h1 = process_arp_packet packet_alloc request.arp h in
        let g2 = process_arp_packet packet_alloc answer.arp g1 in
        (unknown ≡ none)
        × (g1.tx ≡ request ∷ g.tx)
        × (h1.tx ≡ answer ∷ h.tx)
        × (get_l2_addr packet_alloc a b g2 ≡ (some h.local_l2addr, g2))
  get_l2_addr_resolves a b g h allocates own theirs missing =
      let asked = get_l2_addr_missing a b g allocates missing in
      let request = request_frame a b g in
      let answer = reply_frame request.arp b h in
      let (_, answered, _, _, _) = process_arp_packet_lem request.arp h b allocates in
      let g1 = (get_l2_addr packet_alloc a b g).1 in
      let same : g1.local_ip_addrs ≡ g.local_ip_addrs = ap (λ r. r.1.local_ip_addrs) asked in
      let heard : is_member answer.arp.tpa g1.local_ip_addrs ≡ true = ap (is_member a) same ∙ own in
      let (learnt, _, _, _, _) = process_arp_packet_lem answer.arp g1 b allocates in
      let known = learnt ∙ rw (heard, beq_self b) refl in
      (
        ap (λ r. r.0) asked,
        ap (λ r. r.1.tx) asked,
        answered ∙ rw theirs refl,
        get_l2_addr_there a b h.local_l2addr (process_arp_packet packet_alloc answer.arp g1) known,
      )
