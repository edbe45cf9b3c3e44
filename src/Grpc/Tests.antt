-- ===== src/Grpc/Tests.antt =====
-- The gRPC probe at concrete inputs.
use blackbox_exporter_with_g.Common.{
  ℕ, String, ◌≡◌, ◌≢◌, refl, Option, none, some, [], ◌∷◌, drop, here, later, if◌then◌else◌, ◌==◌,
  ℕ_eq, string_eq,
}
use blackbox_exporter_with_g.Common.Int.{pos}
use blackbox_exporter_with_g.Common.Net.{Ip, split_host_port}
use blackbox_exporter_with_g.Common.Text.{Bytes, codes}
use blackbox_exporter_with_g.Common.Trace.{next, result}
use blackbox_exporter_with_g.Config.Defaults.{default_grpc_probe}
use blackbox_exporter_with_g.Metrics.{panicked}
use blackbox_exporter_with_g.Utils.{Resolver, choose_protocol}
use blackbox_exporter_with_g.Grpc.{
  Answer, response, broken, Metadata, Dial, Library, statuses, prepare, probe_grpc,
}
use blackbox_exporter_with_g.Grpc.Target.{prepare-resolver, prepare-unsplittable}
use blackbox_exporter_with_g.Grpc.Serving.{value, statuses-value}

abbrev at : Ip → Resolver
at ip = record { lookup_ip = λ f name. some (ip ∷ []); lookup_ip_addr = λ name. some (ip ∷ []) }

abbrev serves : Option ℕ → String → Metadata → Answer
serves none service md = broken
serves (some conn) service md = response 1 (record { tls = none })

abbrev library : Library ℕ
library = record {
  resolver = at (10 ∷ 0 ∷ 0 ∷ 1 ∷ []);
  url_host = λ url. some (drop 7 url);
  new_tls_config = λ c. some c;
  new_client = λ d. some 0;
  call = serves;
  status_name = λ n. if n == 1 then "SERVING" else "NOT_SERVING";
  status_names = "NOT_SERVING" ∷ "SERVING" ∷ [];
  sha256 = λ bs. bs;
  unix = λ t. pos t;
}

abbrev disconnected : Library ℕ
disconnected = record library { new_client = λ d. none }

-- The error of the client is not an end of the probe.
no_client_panics : result (probe_grpc disconnected default_grpc_probe (codes "host:50")) ≡ panicked
unfolding probe_grpc choose_protocol split_host_port
no_client_panics = refl

abbrev plain : Bytes → Dial
plain target = record { target = target; tls = none }

goes_on :
    (prepare library default_grpc_probe (codes "host:50")).exit ≡ next (plain (codes "host:50"))
unfolding prepare choose_protocol split_host_port
goes_on = refl

abbrev elsewhere : Resolver
elsewhere = at (10 ∷ 9 ∷ 9 ∷ 9 ∷ [])

goes_on_elsewhere :
    (prepare
      (record library { resolver = elsewhere })
      (record default_grpc_probe { preferred_ip_protocol = "ip4" })
      (codes "host:50")).exit
    ≡ next (plain (codes "host:50"))
unfolding prepare choose_protocol split_host_port
goes_on_elsewhere = refl

prepare-resolver_example : plain (codes "host:50") ≡ plain (codes "host:50")
prepare-resolver_example =
    prepare-resolver library elsewhere default_grpc_probe "ip4" (codes "host:50")
      (plain (codes "host:50")) (plain (codes "host:50")) goes_on goes_on_elsewhere

goes_on_v6 :
    (prepare library default_grpc_probe (codes "[::1]:50")).exit ≡ next (plain (codes "::1:50"))
unfolding prepare choose_protocol split_host_port
goes_on_v6 = refl

splits_v6 : split_host_port (codes "[::1]:50") ≡ some (codes "::1", codes "50")
unfolding split_host_port
splits_v6 = refl

prepare-unsplittable_example : split_host_port (codes "::1:50") ≡ none
prepare-unsplittable_example =
    prepare-unsplittable library default_grpc_probe (codes "[::1]:50") (codes "[::1]:50")
      (codes "::1") (codes "50") (plain (codes "::1:50")) goes_on_v6 refl splits_v6 refl (λ e. cc)

abbrev answered : String
answered = "NOT_SERVING"

abbrev asked : String
asked = "SERVING"

asked-ne : asked ≢ ""
asked-ne e = cc

statuses-value_example :
    value asked none (statuses library default_grpc_probe answered)
    ≡ some (pos (if answered == asked then 1 else 0))
statuses-value_example =
    statuses-value library default_grpc_probe answered asked none (later (here refl)) asked-ne
