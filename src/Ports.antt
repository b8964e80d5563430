-- ===== src/Ports.antt =====
-- pkg/ports/parse.go: the port definitions of `--publish`, [src:]dst[/tcp|/udp].
pub mod Laws
use k3c.Prelude.{ℕ, ◌≡◌, refl, Option, none, some, List, [], ◌∷◌, ◌++◌}
use k3c.Prelude.Text.{Text, codes, strip_suffix, cut}
use k3c.Prelude.Int.{ℤ, pos, parse_int, to_int32}
use k3c.Prelude.Results.{Result, ok, err, wrap, message, or_err, traverse, ◌>>=◌}
use k3c.Cri.{Protocol, tcp, udp, PortMapping}

-- The protocol that the suffix names, and the text without it.
unfoldable pub split_protocol : Text → Protocol × Text
unfolding strip_suffix
split_protocol p = elim (strip_suffix (codes "/tcp") p) [
  | some rest ↦ (tcp, rest)
  | none ↦ elim (strip_suffix (codes "/udp") p) [ some rest ↦ (udp, rest) | none ↦ (tcp, p) ]
]

-- strconv.Atoi, with the error wrapped.
abbrev pub atoi : Text → Result ℤ
atoi s = wrap (codes "parsing " ++ s) (or_err (parse_int s) (message (codes "invalid syntax")))

abbrev mapping : Protocol → ℤ → ℤ → PortMapping
mapping proto host_port container_port = record {
  protocol = proto;
  container_port = to_int32 container_port;
  host_port = to_int32 host_port;
  host_ip = [];
}

-- SplitN with a limit of 2 gives one part or two; the code's branch for any other number is dead.
parse_parts : Protocol → Text × Option Text → Result PortMapping
parse_parts proto (dst, none) = do c ← atoi dst; ok (mapping proto (pos 0) c)
parse_parts proto (src, some dst) = do h ← atoi src; c ← atoi dst; ok (mapping proto h c)

-- One round of the loop.
unfoldable pub parse_port : Text → Result PortMapping
unfolding split_protocol parse_parts cut parse_int to_int32
parse_port p = let (proto, rest) = split_protocol p in parse_parts proto (cut b':' rest)

unfoldable pub parse : List Text → Result (List PortMapping)
parse = traverse parse_port
