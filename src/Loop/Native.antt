-- ===== src/Loop/Native.antt =====
-- The calls of the native `create_connection` and `create_server` that the methods of the same name of
-- `class Loop`, talyn/loop.py, come to, with TLS and without.
use talyn.Base.{ℕ, none, some, [], Option}
use talyn.Loop.Factories.{
  ConnectionArgs, ServerArgs, Keywords, put_nonzero, put_given, family, flags, sock, reuse_address,
  reuse_port, dns_timeout, tls_kwargs, create_connection, create_server, ConnectionRoute,
  ServerRoute,
}

-- The host and the port are given by position, or not at all; each may be None.
pub record ConnectionCall : Type 0 where
  pub address : Option (Option ℕ × Option ℕ)
  pub keywords : Keywords

pub record ServerCall : Type 0 where
  pub host : Option ℕ
  pub port : Option ℕ
  pub backlog : ℕ
  pub keywords : Keywords

-- The call in `_create_ssl_connection`.
unfoldable pub ssl_connection_call : ConnectionArgs → ConnectionCall
ssl_connection_call a = record {
  address = elim a.sock [ some _ ↦ none | none ↦ some (a.host, a.port) ];
  keywords = tls_kwargs a;
}

abbrev given_address : Option (ℕ × ℕ) → Option (Option ℕ × Option ℕ)
given_address none = none
given_address (some (h, p)) = some (some h, some p)

unfoldable pub connection_call : ConnectionArgs → ConnectionCall
unfolding create_connection ssl_connection_call
connection_call a = elim (create_connection a) [
  | ConnectionRoute.over_tls c b ↦ ssl_connection_call b
  | ConnectionRoute.native address kwargs ↦ record {
    address = given_address address;
    keywords = kwargs;
  }
]

-- The keywords in `_create_ssl_server`.
unfoldable pub ssl_server_kwargs : ServerArgs → Keywords
ssl_server_kwargs a = put_nonzero family a.family (
    put_nonzero flags a.flags (
      put_given sock a.sock (
        put_given reuse_address a.reuse_address
          (put_given reuse_port a.reuse_port (put_given dns_timeout a.dns_timeout [])))))

unfoldable pub server_call : ServerArgs → ServerCall
unfolding create_server ssl_server_kwargs
server_call a = elim (create_server a) [
  | ServerRoute.over_tls c b ↦ record {
    host = b.host;
    port = b.port;
    backlog = b.backlog;
    keywords = ssl_server_kwargs b;
  }
  | ServerRoute.native host port backlog kwargs ↦ record {
    host = some host;
    port = port;
    backlog = backlog;
    keywords = kwargs;
  }
]
