-- ===== src/Icmp/Probe/Verdict.antt =====
-- When the ICMP probe succeeds, what it then has sent, and when it panics.
use blackbox_exporter_with_g.Common.{ℕ, String, ◌≡◌, true, Option, some, string_eq}
use blackbox_exporter_with_g.Common.Text.{Bytes}
use blackbox_exporter_with_g.Common.Trace.{next}
use blackbox_exporter_with_g.Common.Trace.Ensures.{Ensures}
use blackbox_exporter_with_g.Config.Types.{IcmpProbe}
use blackbox_exporter_with_g.Utils.{chosen, choose_protocol}
use blackbox_exporter_with_g.Icmp.{payload, wanted_reply, get_icmp_sequence}
use blackbox_exporter_with_g.Icmp.Receive.{Answered}
use blackbox_exporter_with_g.Icmp.Probe.{
  Library, Exchange, setup, request, reply, sent, id_unknown, prepare,
}

module _ (lib : Library) (os : String) (icmp_id : ℕ) (target : Bytes) (c : IcmpProbe) where
  -- An exchange that is ready: to the chosen address, the request with the payload and the next sequence number has been
  -- written, and the reply is the same message, but for its type and an id that is not known.
  pub record IsSent (sequence : ℕ) (x : Exchange lib os icmp_id target c) : Type 0 where
    pub found :
        (choose_protocol lib.resolver c.ip_protocol c.ip_protocol_fallback target).0 ≡ chosen x.ip
    pub data_ : payload c.payload_size ≡ some x.data_
    pub request :
        lib.marshal (request lib os icmp_id target c x.setup (get_icmp_sequence sequence) x.data_)
        ≡ some x.request
    pub written : lib.write (sent lib os icmp_id target c x.setup x.ip x.request) ≡ true
    pub reply :
        lib.marshal (reply lib os icmp_id target c x.setup (get_icmp_sequence sequence) x.data_)
        ≡ some x.reply
    pub bounded : lib.set_read_deadline ≡ true
    pub set_up : (setup lib os icmp_id target c x.ip).exit ≡ next x.setup

  -- A reply that has been taken for that of the request.
  pub record IsAnswered (sequence : ℕ) : Type 0 where
    pub exchange : Exchange lib os icmp_id target c
    pub prepared : (prepare lib os icmp_id target c sequence).exit ≡ next exchange
    pub is_sent : IsSent sequence exchange
    pub hop_limit : Option ℕ
    pub answered :
        Answered
          (id_unknown lib os icmp_id target c exchange.setup)
          exchange.setup.family
          (lib.dst_text exchange.setup.privileged exchange.ip)
          (wanted_reply (id_unknown lib os icmp_id target c exchange.setup) exchange.reply)
          exchange.setup.hop_limit_flag_set
          (lib.received (sent lib os icmp_id target c exchange.setup exchange.ip exchange.request))
          hop_limit
