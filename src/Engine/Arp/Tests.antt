-- ===== src/Engine/Arp/Tests.antt =====
-- Inputs of the theorems on the resolution of addresses.
use machnet.Base.{◌≡◌, refl, true, false, ◌&&◌, none, some, [], ◌∷◌, ◌==◌, if◌then◌else◌}
use machnet.Base.Maps.{find, nat_eq}
use machnet.Engine.Arp.{
  ArpHandler, new_arp_handler, is_member, request_frame, reply_frame, get_l2_addr,
  process_arp_packet,
}
use machnet.Engine.Arp.Resolution.{teaches, asks, process_arp_packet_lem, get_l2_addr_resolves}

abbrev asker : ArpHandler
asker = record {
  local_l2addr = 0xa1;
  local_ip_addrs = 1 ∷ [];
  arp_table = [];
  tx = [];
  packet_allocs = 0;
  aborted = false;
}

abbrev asked : ArpHandler
asked = record asker { local_l2addr = 0xb2; local_ip_addrs = 2 ∷ [] }

asker_made : new_arp_handler 0xa1 (1 ∷ []) ≡ some asker
unfolding new_arp_handler
asker_made = refl

twice_refused : new_arp_handler 0xa1 (1 ∷ 1 ∷ []) ≡ none
unfolding new_arp_handler
twice_refused = refl

process_arp_packet_lem_example :
    let question = (request_frame 1 2 asker).arp in
    let g = process_arp_packet (λ _. true) question asked in
    (find 1 g.arp_table ≡ (
      if teaches question asked && question.spa == 1
      then some question.sha
      else find 1 asked.arp_table))
    × (g.tx ≡ (
        if asks question asked
        then reply_frame question question.tpa asked ∷ asked.tx
        else asked.tx))
    × (g.local_ip_addrs ≡ asked.local_ip_addrs)
    × (g.local_l2addr ≡ asked.local_l2addr)
    × (g.aborted ≡ asked.aborted)
process_arp_packet_lem_example =
    process_arp_packet_lem (λ _. true) (request_frame 1 2 asker).arp asked 1 (λ _. refl)

get_l2_addr_resolves_example :
    let question = request_frame 1 2 asker in
    let answer = reply_frame question.arp 2 asked in
    let (unknown, g1) = get_l2_addr (λ _. true) 1 2 asker in
    let h1 = process_arp_packet (λ _. true) question.arp asked in
    let g2 = process_arp_packet (λ _. true) answer.arp g1 in
    (unknown ≡ none)
    × (g1.tx ≡ question ∷ asker.tx)
    × (h1.tx ≡ answer ∷ asked.tx)
    × (get_l2_addr (λ _. true) 1 2 g2 ≡ (some asked.local_l2addr, g2))
unfolding is_member find
get_l2_addr_resolves_example =
    get_l2_addr_resolves (λ _. true) 1 2 asker asked (λ _. refl) refl refl refl
