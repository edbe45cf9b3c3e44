-- ===== src/Dns/Probe/Verdict.antt =====
-- When the DNS probe succeeds, and what it then has asked.
use blackbox_exporter_with_g.Common.{
  ◌≡◌, ◌↔◌, refl, ap, ◌∙◌, true, Option, none, some, arith, string_eq,
}
use blackbox_exporter_with_g.Common.Text.{Bytes}
use blackbox_exporter_with_g.Common.Trace.{Exit, next, stop, result}
use blackbox_exporter_with_g.Config.Types.{DnsProbe}
use blackbox_exporter_with_g.Metrics.{Outcome, returned}
use blackbox_exporter_with_g.Dns.{valid_rrs, valid_rcode}
use blackbox_exporter_with_g.Dns.Probe.Asked.{IsAsked}
use blackbox_exporter_with_g.Dns.Probe.Prepared.{prepare-Exactly}
use blackbox_exporter_with_g.Dns.Probe.{Library, Query, Response, prepare, judge, probe_dns}

module _ (lib : Library) (target : Bytes) (dns : DnsProbe) where
  -- The response passes all that the module requires of it.
  pub record IsAccepted (response : Response) : Type 0 where
    pub rcode : valid_rcode lib.string_to_rcode response.rcode dns.valid_rcodes ≡ true
    pub answer : valid_rrs lib.match_string response.answer dns.validate_answer ≡ true
    pub authority : valid_rrs lib.match_string response.ns dns.validate_authority ≡ true
    pub additional : valid_rrs lib.match_string response.extra dns.validate_additional ≡ true

  judge-IsAccepted :
      (q : Query) (answered : Option Response)
      → result (judge lib target dns q answered) ≡ returned true
      → (response : Response) × (answered ≡ some response) × IsAccepted response
  unfolding judge
  judge-IsAccepted q none e = cc
  judge-IsAccepted q (some response) e = (response, refl, ground arith)

  -- A query that is answered, and the answer.
  pub record Answered : Type 0 where
    pub query : Query
    pub response : Response
    pub asked : IsAsked lib target dns query
    pub exchanged : lib.exchange query ≡ some response
    pub accepted : IsAccepted response

  probe_dns-Answered : result (probe_dns lib target dns) ≡ returned true → Answered
  unfolding probe_dns
  probe_dns-Answered e = go (prepare lib target dns).exit refl
    where
      go : (x : Exit Outcome Query) → (prepare lib target dns).exit ≡ x → Answered
      go (stop r) p = absurd ((prepare-Exactly lib target dns).fails (p ∙ ap stop (rw p at e)))
      go (next q) p =
          let (response, exchanged, accepted) = judge-IsAccepted q (lib.exchange q) (rw p at e) in
          record {
            query = q;
            response = response;
            asked = ((prepare-Exactly lib target dns).goes_on q).0 p;
            exchanged = exchanged;
            accepted = accepted;
          }

  Answered-probe_dns : Answered → result (probe_dns lib target dns) ≡ returned true
  unfolding probe_dns judge
  Answered-probe_dns a =
      let prepared = ((prepare-Exactly lib target dns).goes_on a.query).1 a.asked in
      let rcode = a.accepted.rcode in
      let answer = a.accepted.answer in
      let authority = a.accepted.authority in
      let additional = a.accepted.additional in rw (prepared, a.exchanged) (ground arith)

  -- The DNS probe succeeds exactly if a query that the module asks for is exchanged for a response,
  -- and the response has a valid code and valid records in all three sections. The query has the
  -- class and the type of the module (or the defaults), its name and recursion flag; it goes over UDP
  -- or TCP, which the module may name, to the address that is chosen for the target's host, at the
  -- target's port or at 53, or 853 with TLS; with TLS exactly if the module asks for it, which needs
  -- TCP, under the module's server name or the host; and from the module's source address, if any.
  pub probe_dns_iff : (result (probe_dns lib target dns) ≡ returned true) ↔ Answered
  probe_dns_iff = (probe_dns-Answered, Answered-probe_dns)
