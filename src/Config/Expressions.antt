-- ===== src/Config/Expressions.antt =====
-- The regular expressions and CEL programs of config/config.go, as they are read from YAML and written
-- back, and the sections that are only decoded over their defaults. The compilers and the decoder
-- are parameters; `none` is an error of the decoder, or a null that is written.
pub mod RoundTrip
use blackbox_exporter_with_g.Common.{
  String, Bool, true, false, not, Option, none, some, if◌then◌else◌, ◌==◌, string_eq,
}
use blackbox_exporter_with_g.Common.Results.{Result, ok, err, or_err}
use blackbox_exporter_with_g.Config.Types.{
  Regexp, CelProgram, HttpClientConfig, Module, GrpcProbe, TcpProbe, UnixProbe, DnsRrValidator,
}
use blackbox_exporter_with_g.Config.Defaults.{
  default_module, default_grpc_probe, default_tcp_probe, default_unix_probe, no_validator,
}

pub data Problem : Type 0 where
  yaml not_compiled : Problem

module _ (compiles : String → Bool) where
  -- `NewRegexp`, also without a compiled expression.
  pub new_regexp : String → Regexp × Bool
  new_regexp s = (record { compiled = compiles s; original = s }, compiles s)

  -- `UnmarshalYAML` of a regular expression, of what the decoder yields.
  unfoldable pub unmarshal_regexp : Option String → Result Problem Regexp
  unfolding new_regexp
  unmarshal_regexp none = err yaml
  unmarshal_regexp (some s) =
      let (re, compiled) = new_regexp s in if compiled then ok re else err not_compiled

  -- `NewCELProgram` and its `UnmarshalYAML`; the steps of the compiler are one.
  unfoldable pub unmarshal_cel_program : Option String → Result Problem CelProgram
  unmarshal_cel_program none = err yaml
  unmarshal_cel_program (some s) =
      if compiles s then ok (record { expression = s }) else err not_compiled

unfoldable pub marshal_regexp : Regexp → Option String
marshal_regexp re = if not (re.original == "") then some re.original else none

unfoldable pub marshal_cel_program : CelProgram → Option String
marshal_cel_program c = if not (c.expression == "") then some c.expression else none

abbrev pub unmarshal_module : HttpClientConfig → (Module → Option Module) → Result Problem Module
unmarshal_module client decode = or_err (decode (default_module client)) yaml

abbrev pub unmarshal_grpc : (GrpcProbe → Option GrpcProbe) → Result Problem GrpcProbe
unmarshal_grpc decode = or_err (decode default_grpc_probe) yaml

abbrev pub unmarshal_tcp : (TcpProbe → Option TcpProbe) → Result Problem TcpProbe
unmarshal_tcp decode = or_err (decode default_tcp_probe) yaml

abbrev pub unmarshal_unix : (UnixProbe → Option UnixProbe) → Result Problem UnixProbe
unmarshal_unix decode = or_err (decode default_unix_probe) yaml
