-- ===== src/Loop/Factories.antt =====
-- `create_connection` and `create_server` of `class Loop`, talyn/loop.py: what they hand on to the
-- TLS variants and to the native methods of the same name. Values are numbers; 0 is falsy.
use talyn.Base.{ℕ, zero, suc, Bool, true, false, Option, none, some, List, [], ◌∷◌}

pub data Keyword : Type 0 where
  family proto flags sock local_addr server_hostname ssl_handshake_timeout : Keyword
  ssl_shutdown_timeout happy_eyeballs_delay interleave all_errors dns_timeout : Keyword
  reuse_address reuse_port : Keyword

abbrev pub Keywords : Type 0
Keywords = List (Keyword × ℕ)

pub record ConnectionArgs : Type 0 where
  pub host : Option ℕ
  pub port : Option ℕ
  pub ssl : Option ℕ
  pub family : ℕ
  pub proto : ℕ
  pub flags : ℕ
  pub sock : Option ℕ
  pub local_addr : Option ℕ
  pub server_hostname : Option ℕ
  pub ssl_handshake_timeout : Option ℕ
  pub ssl_shutdown_timeout : Option ℕ
  pub happy_eyeballs_delay : Option ℕ
  pub interleave : Option ℕ
  pub all_errors : Bool
  pub dns_timeout : Option ℕ

pub record ServerArgs : Type 0 where
  pub host : Option ℕ
  pub port : Option ℕ
  pub ssl : Option ℕ
  pub family : ℕ
  pub flags : ℕ
  pub sock : Option ℕ
  pub backlog : ℕ
  pub reuse_address : Option ℕ
  pub reuse_port : Option ℕ
  pub ssl_handshake_timeout : Option ℕ
  pub ssl_shutdown_timeout : Option ℕ
  pub start_serving : Bool
  pub dns_timeout : Option ℕ

-- `if x: kwargs[k] = x` and `if x is not None: kwargs[k] = x`, then the rest.
abbrev pub put_nonzero : Keyword → ℕ → Keywords → Keywords
put_nonzero k zero rest = rest
put_nonzero k (suc n) rest = (k, suc n) ∷ rest

abbrev pub put_given : Keyword → Option ℕ → Keywords → Keywords
put_given k none rest = rest
put_given k (some v) rest = (k, v) ∷ rest

abbrev pub put_true : Keyword → Bool → Keywords → Keywords
put_true k false rest = rest
put_true k true rest = (k, 1) ∷ rest

unfoldable pub connection_kwargs : ConnectionArgs → Keywords
connection_kwargs a = put_nonzero family a.family (
    put_nonzero proto a.proto (
      put_given sock a.sock (
        put_given local_addr a.local_addr (
          put_given server_hostname a.server_hostname (
            put_given ssl_handshake_timeout a.ssl_handshake_timeout (
              put_given ssl_shutdown_timeout a.ssl_shutdown_timeout (
                put_given happy_eyeballs_delay a.happy_eyeballs_delay (
                  put_given interleave a.interleave (
                    put_true all_errors a.all_errors
                      (put_given dns_timeout a.dns_timeout []))))))))))

-- What `_create_ssl_connection` hands on to the native method.
unfoldable pub tls_kwargs : ConnectionArgs → Keywords
tls_kwargs a = put_nonzero family a.family (
    put_nonzero proto a.proto (
      put_nonzero flags a.flags (
        put_given sock a.sock (
          put_given local_addr a.local_addr (
            put_given happy_eyeballs_delay a.happy_eyeballs_delay (
              put_given interleave a.interleave
                (put_true all_errors a.all_errors (put_given dns_timeout a.dns_timeout []))))))))

unfoldable pub server_kwargs : ServerArgs → Keywords
server_kwargs a = put_nonzero family a.family (
    put_nonzero flags a.flags (
      put_given sock a.sock (
        put_given reuse_address a.reuse_address
          (put_given reuse_port a.reuse_port (put_given dns_timeout a.dns_timeout [])))))

-- What a call is handed on to: the TLS variant with all its arguments, or the native method with
-- positional arguments and keywords.
pub data ConnectionRoute : Type 0 where
  over_tls : (context : ℕ) → ConnectionArgs → ConnectionRoute
  native : (address : Option (ℕ × ℕ)) → Keywords → ConnectionRoute

pub data ServerRoute : Type 0 where
  over_tls : (context : ℕ) → ServerArgs → ServerRoute
  native : (host : ℕ) → (port : Option ℕ) → (backlog : ℕ) → Keywords → ServerRoute

-- `(host, port) if host is not None and port is not None else ()`
abbrev pub address : Option ℕ → Option ℕ → Option (ℕ × ℕ)
address (some h) (some p) = some (h, p)
address _ _ = none

unfoldable pub create_connection : ConnectionArgs → ConnectionRoute
create_connection a = elim a.ssl [
  | some c ↦ ConnectionRoute.over_tls c a
  | none ↦ ConnectionRoute.native (address a.host a.port) (connection_kwargs a)
]

-- The arguments with which `connect_accepted_socket` calls `create_connection`.
abbrev pub accepted_args : (accepted : ℕ) (context handshake shutdown : Option ℕ) → ConnectionArgs
accepted_args accepted context handshake shutdown = record {
  host = none;
  port = none;
  ssl = context;
  family = 0;
  proto = 0;
  flags = 0;
  sock = some accepted;
  local_addr = none;
  server_hostname = none;
  ssl_handshake_timeout = handshake;
  ssl_shutdown_timeout = shutdown;
  happy_eyeballs_delay = none;
  interleave = none;
  all_errors = false;
  dns_timeout = none;
}

unfoldable pub connect_accepted_socket :
    (accepted : ℕ) (context handshake shutdown : Option ℕ) → ConnectionRoute
unfolding create_connection
connect_accepted_socket accepted context handshake shutdown =
    create_connection (accepted_args accepted context handshake shutdown)

-- The empty host is 0.
abbrev pub host_or_empty : Option ℕ → ℕ
host_or_empty none = 0
host_or_empty (some h) = h

unfoldable pub create_server : ServerArgs → ServerRoute
create_server a = elim a.ssl [
  | some c ↦ ServerRoute.over_tls c a
  | none ↦ ServerRoute.native (host_or_empty a.host) a.port a.backlog (server_kwargs a)
]

pub record UnixServerArgs : Type 0 where
  pub path : ℕ
  pub ssl : Option ℕ
  pub backlog : ℕ
  pub ssl_handshake_timeout : Option ℕ
  pub ssl_shutdown_timeout : Option ℕ
  pub start_serving : Bool

pub data UnixServerRoute : Type 0 where
  over_tls :
      (path backlog context : ℕ)
      → (ssl_shutdown_timeout : Option ℕ) → (start_serving : Bool) → UnixServerRoute
  native : (path backlog : ℕ) → (start_serving : Bool) → UnixServerRoute

-- `create_unix_server`, with what its `Server` is given
unfoldable pub create_unix_server : UnixServerArgs → UnixServerRoute
create_unix_server a = elim a.ssl [
  | some c ↦ UnixServerRoute.over_tls a.path a.backlog c a.ssl_shutdown_timeout a.start_serving
  | none ↦ UnixServerRoute.native a.path a.backlog a.start_serving
]

pub record UnixConnectionArgs : Type 0 where
  pub path : ℕ
  pub ssl : Option ℕ
  pub server_hostname : Option ℕ
  pub ssl_handshake_timeout : Option ℕ
  pub ssl_shutdown_timeout : Option ℕ

pub data UnixConnectionRoute : Type 0 where
  over_tls : (context : ℕ) → UnixConnectionArgs → UnixConnectionRoute
  native : (path : ℕ) → UnixConnectionRoute

-- `create_unix_connection`
unfoldable pub create_unix_connection : UnixConnectionArgs → UnixConnectionRoute
create_unix_connection a = elim a.ssl [
  | some c ↦ UnixConnectionRoute.over_tls c a
  | none ↦ UnixConnectionRoute.native a.path
]
