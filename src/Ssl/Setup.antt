-- ===== src/Ssl/Setup.antt =====
-- How the factories of talyn/loop.py make the SSL object of a connection: what they pass to
-- `wrap_bio`, and what becomes of the argument `ssl`. Hosts are numbers, 0 the empty text; what
-- `wrap_bio` of a context does is an argument.
use talyn.Base.{refl, ◌≡◌, Option, Bool, none, some, true, false, ℕ, zero, suc}

-- The argument `ssl` of a factory that was given one: True, False, or a context.
pub data SslArgument : Type 0 where
  boolean : Bool → SslArgument
  context : ℕ → SslArgument

-- What `wrap_bio` is called on: the caller's context; or the default context, in which the code has
-- set `check_hostname` and `verify_mode` itself or left them alone; or a bool.
pub data Wrapping : Type 0 where
  given : ℕ → Wrapping
  default_context : (set_checks : Bool) → Wrapping
  no_context : Wrapping

pub record WrapBio : Type 0 where
  pub wrapped : Wrapping
  pub server_side : Bool
  pub server_hostname : Option ℕ

-- `x or y`
abbrev pub or_host : Option ℕ → Option ℕ → Option ℕ
or_host none y = y
or_host (some zero) y = y
or_host (some (suc x)) y = some (suc x)

-- `if host:`
abbrev has_host : Option ℕ → Bool
has_host none = false
has_host (some zero) = false
has_host (some (suc _)) = true

-- A context of the caller; a bool has no `wrap_bio`.
abbrev pub as_given : SslArgument → Wrapping
as_given (boolean _) = no_context
as_given (context c) = given c

-- `_create_ssl_connection`, which takes True for the default context
unfoldable pub connection_wrapping : SslArgument → Option ℕ → Option ℕ → WrapBio
connection_wrapping ssl host server_hostname = record {
  wrapped = elim ssl [
    | boolean true ↦ default_context (has_host host)
    | boolean false ↦ no_context
    | context c ↦ given c
  ];
  server_side = false;
  server_hostname = or_host server_hostname host;
}

-- `_create_ssl_unix_connection`
unfoldable pub unix_connection_wrapping : SslArgument → Option ℕ → WrapBio
unix_connection_wrapping ssl server_hostname = record {
  wrapped = as_given ssl;
  server_side = false;
  server_hostname = or_host server_hostname none;
}

-- `SSP.__init__` of `_create_ssl_server` and of `_create_ssl_unix_server`, for each connection
unfoldable pub server_wrapping : SslArgument → WrapBio
server_wrapping ssl = record { wrapped = as_given ssl; server_side = true; server_hostname = none }

-- `start_tls`, which refuses what is no context
unfoldable pub start_tls_wrapping : SslArgument → Bool → Option ℕ → Option WrapBio
start_tls_wrapping (boolean _) server_side server_hostname = none
start_tls_wrapping (context c) server_side server_hostname =
    some
      (record { wrapped = given c; server_side = server_side; server_hostname = server_hostname })

-- How a factory gets its SSL object.
pub data Made (Obj : Type 0) : Type 0 where
  made : Obj → Made Obj
  attribute_error refused : Made Obj

abbrev pub of_context : {Obj : Type 0} → Option Obj → Made Obj
of_context none = refused
of_context (some o) = made o

module _ {Obj : Type 0} (wrap_bio : Wrapping → Bool → Option ℕ → Option Obj) where
  -- `wrap_bio` of a context, which may raise; a bool raises AttributeError.
  unfoldable pub make : WrapBio → Made Obj
  make w = elim w.wrapped [
    | no_context ↦ attribute_error
    | given c ↦ of_context (wrap_bio (given c) w.server_side w.server_hostname)
    | default_context b ↦ of_context (wrap_bio (default_context b) w.server_side w.server_hostname)
  ]

  -- With True for `ssl` and a host, `create_connection` makes its SSL object from the default context
  -- in which it has turned on both checks, and for the name that the caller gave, or else for the
  -- host; with True, only `create_connection` gets an SSL object at all, and with False no factory
  -- does, though False is documented to mean no TLS: each meets an AttributeError.
  pub make-boolean :
      (h : ℕ) (name : Option ℕ) (host : Option ℕ)
      → (make (connection_wrapping (boolean true) (some (suc h)) name)
          ≡ of_context (wrap_bio (default_context true) false (or_host name (some (suc h)))))
        × (make (connection_wrapping (boolean false) host name) ≡ attribute_error)
        × ((b : Bool) → make (unix_connection_wrapping (boolean b) name) ≡ attribute_error)
        × ((b : Bool) → make (server_wrapping (boolean b)) ≡ attribute_error)
  unfolding make connection_wrapping unix_connection_wrapping server_wrapping
  make-boolean h name host = (refl, refl, λ b. refl, λ b. refl)
