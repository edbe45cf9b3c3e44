-- ===== src/Grpc/Target.antt =====
-- What the gRPC probe dials.
use mathlib.Core.Path.{subst}
use blackbox_exporter_with_g.Common.{
  String, ◌≡◌, ◌≢◌, refl, sym, ap, ◌∙◌, Bool, true, none, some, [], ◌∷◌, ◌++◌, ℕ_eq,
}
use blackbox_exporter_with_g.Common.Net.{has_byte, split_host_port}
use blackbox_exporter_with_g.Common.Net.Split.{split_host_port-colon, split_host_port-unsplittable}
use blackbox_exporter_with_g.Common.Text.{Bytes, bytes_eq}
use blackbox_exporter_with_g.Common.Trace.{next}
use blackbox_exporter_with_g.Config.Types.{GrpcProbe}
use blackbox_exporter_with_g.Utils.{Resolver}
use blackbox_exporter_with_g.Grpc.{Dial, Library, with_scheme, host_port, dial_target, prepare}
use blackbox_exporter_with_g.Grpc.Verdict.{prepare-Exactly}

-- Whatever the resolver answers, and so whichever protocol and address are chosen and reported, what
-- is dialled is the same, if anything is: the protocol that the module prefers has no say in it.
pub prepare-resolver :
    {Conn : Type 0} (lib : Library Conn) (other : Resolver) (c : GrpcProbe) (preferred : String)
    (target : Bytes) (d e : Dial)
    → (prepare lib c target).exit ≡ next d
    → (prepare
        (record lib { resolver = other })
        (record c { preferred_ip_protocol = preferred })
        target).exit
      ≡ next e
    → d ≡ e
prepare-resolver lib other c preferred target d e h k =
    let a = ((prepare-Exactly lib c target).goes_on d).0 h in
    let b =
      ((prepare-Exactly (record lib { resolver = other })
            (record c { preferred_ip_protocol = preferred }) target).goes_on
          e).0
        k in
    let host : a.host ≡ b.host = (let p = a.parsed in let q = b.parsed in cc) in
    let tls : a.tls ≡ b.tls = (let p = a.configured in let q = b.configured in cc) in
    sym a.dialled ∙ (rw (host, tls) b.dialled)

dial_target-port :
    (tls : Bool) (host port : Bytes)
    → port ≢ []
    → dial_target tls (host, port) ≡ host ++ b':' ∷ port
dial_target-port tls host [] filled = absurd (filled refl)
dial_target-port tls host (b ∷ port) filled = refl

-- For a host with a colon, an IPv6 address, and a port that is not empty, what is dialled has lost
-- the brackets: it has no host and port.
pub prepare-unsplittable :
    {Conn : Type 0} (lib : Library Conn) (c : GrpcProbe) (target url_host host port : Bytes)
    (d : Dial)
    → (prepare lib c target).exit ≡ next d
    → lib.url_host (with_scheme target) ≡ some url_host
    → split_host_port url_host ≡ some (host, port)
    → has_byte b':' host ≡ true
    → port ≢ []
    → split_host_port d.target ≡ none
prepare-unsplittable lib c target url_host host port d h parsed split colon filled =
    let a = ((prepare-Exactly lib c target).goes_on d).0 h in
    let same : a.host ≡ url_host = (let p = a.parsed in cc) in
    let (clear, last) = split_host_port-colon url_host host port split colon in
    let none_left = split_host_port-unsplittable host port colon clear last in
    let e : host_port a.host ≡ (host, port) = rw (same, split, host_port) refl in
    let t : dial_target c.tls (host_port a.host) ≡ d.target = ap (λ x. x.target) a.dialled in
    let dialled : host ++ b':' ∷ port ≡ d.target =
      sym (dial_target-port c.tls host port filled) ∙ sym (ap (dial_target c.tls) e) ∙ t in
    subst (λ x. split_host_port x ≡ none) dialled none_left
