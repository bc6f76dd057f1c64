-- ===== src/PortRights.antt =====
-- mach/port.h: the rights of a port name, as the bits of their mask, and the answers of the port calls.
use style9_os.Base.{Bool, true, false, not, ◌&&◌, ◌||◌}

-- MACH_PORT_RIGHT_RECEIVE, _SEND, _SEND_ONCE and _PORT_SET
pub record Rights : Type 0 where
  pub receive : Bool
  pub send : Bool
  pub send_once : Bool
  pub port_set : Bool

abbrev pub no_rights : Rights
no_rights = record { receive = false; send = false; send_once = false; port_set = false }

abbrev pub set_right : Rights
set_right = record no_rights { port_set = true }

abbrev pub send_right : Rights
send_right = record no_rights { send = true }

abbrev pub receive_right : Rights
receive_right = record no_rights { receive = true }

-- `rights == 0`
abbrev pub is_empty : Rights → Bool
is_empty r = not (r.receive || r.send || r.send_once || r.port_set)

-- `rights & right`, and `rights & ~right`
abbrev pub both : Rights → Rights → Rights
both r s = record {
  receive = r.receive && s.receive;
  send = r.send && s.send;
  send_once = r.send_once && s.send_once;
  port_set = r.port_set && s.port_set;
}

abbrev pub without : Rights → Rights → Rights
without r s = record {
  receive = r.receive && not s.receive;
  send = r.send && not s.send;
  send_once = r.send_once && not s.send_once;
  port_set = r.port_set && not s.port_set;
}

-- `(rights & need) == need`
abbrev pub allows : Rights → Rights → Bool
allows r need = is_empty (without need r)

-- MACH_MSG_OK and the errors MACH_E_* that are answered here
pub data Code : Type 0 where
  ok : Code
  inval : Code
  bad_name : Code
  bad_right : Code
  nospace : Code
  nomem : Code
