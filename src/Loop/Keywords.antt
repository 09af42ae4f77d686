-- ===== src/Loop/Keywords.antt =====
-- Which options of `create_connection` and `create_server` reach the native methods.
use talyn.Base.{
  ◌≡◌, refl, arith, ℕ, zero, suc, ◌==◌, Bool, true, false, Option, none, some, [], ◌∷◌,
  if◌then◌else◌,
}
use talyn.Loop.Factories.{
  tls_kwargs, put_true, put_given, server_kwargs, put_nonzero, connection_kwargs, Keyword, Keywords,
  ConnectionArgs, ServerArgs, family, proto, flags, sock, local_addr, server_hostname,
  ssl_handshake_timeout, ssl_shutdown_timeout, happy_eyeballs_delay, interleave, all_errors,
  dns_timeout, reuse_address, reuse_port,
}

abbrev rank : Keyword → ℕ
rank family = 0
rank proto = 1
rank flags = 2
rank sock = 3
rank local_addr = 4
rank server_hostname = 5
rank ssl_handshake_timeout = 6
rank ssl_shutdown_timeout = 7
rank happy_eyeballs_delay = 8
rank interleave = 9
rank all_errors = 10
rank dns_timeout = 11
rank reuse_address = 12
rank reuse_port = 13

pub lookup : Keyword → Keywords → Option ℕ
lookup k [] = none
lookup k ((l, v) ∷ rest) = if rank k == rank l then some v else lookup k rest

-- A number, if it is not the default 0.
abbrev pub nonzero : ℕ → Option ℕ
nonzero zero = none
nonzero (suc n) = some (suc n)

-- What the caller asked for, by the name of the option.
unfoldable pub asked : ConnectionArgs → Keyword → Option ℕ
asked a family = nonzero a.family
asked a proto = nonzero a.proto
asked a flags = nonzero a.flags
asked a sock = a.sock
asked a local_addr = a.local_addr
asked a server_hostname = a.server_hostname
asked a ssl_handshake_timeout = a.ssl_handshake_timeout
asked a ssl_shutdown_timeout = a.ssl_shutdown_timeout
asked a happy_eyeballs_delay = a.happy_eyeballs_delay
asked a interleave = a.interleave
asked a all_errors = if a.all_errors then some 1 else none
asked a dns_timeout = a.dns_timeout
asked a _ = none

unfoldable pub asked_server : ServerArgs → Keyword → Option ℕ
asked_server a family = nonzero a.family
asked_server a flags = nonzero a.flags
asked_server a sock = a.sock
asked_server a reuse_address = a.reuse_address
asked_server a reuse_port = a.reuse_port
asked_server a dns_timeout = a.dns_timeout
asked_server a _ = none

abbrev or_else : Option ℕ → Option ℕ → Option ℕ
or_else none o = o
or_else (some v) _ = some v

or_else-none : (o : Option ℕ) → or_else o none ≡ o
or_else-none none = refl
or_else-none (some v) = refl

abbrev put : Keyword → Option ℕ → Keyword → Keywords → Option ℕ
put l o k rest = if rank k == rank l then or_else o (lookup k rest) else lookup k rest

lookup-put_given :
    (k l : Keyword) (o : Option ℕ) (rest : Keywords)
    → lookup k (put_given l o rest) ≡ put l o k rest
unfolding lookup
lookup-put_given k l none rest = ground arith
lookup-put_given k l (some v) rest = refl

lookup-put_nonzero :
    (k l : Keyword) (n : ℕ) (rest : Keywords)
    → lookup k (put_nonzero l n rest) ≡ put l (nonzero n) k rest
unfolding lookup
lookup-put_nonzero k l zero rest = ground arith
lookup-put_nonzero k l (suc n) rest = refl

lookup-put_true :
    (k l : Keyword) (b : Bool) (rest : Keywords)
    → lookup k (put_true l b rest) ≡ put l (if b then some 1 else none) k rest
unfolding lookup
lookup-put_true k l false rest = ground arith
lookup-put_true k l true rest = refl

plain_lookup :
    (a : ConnectionArgs) (k : Keyword)
    → lookup k (connection_kwargs a) ≡ (if rank k == rank flags then none else asked a k)
unfolding connection_kwargs lookup asked
plain_lookup a family = simp (lookup-put_given, lookup-put_nonzero, lookup-put_true, or_else-none)
plain_lookup a k = simp (lookup-put_given, lookup-put_nonzero, lookup-put_true, or_else-none)

tls_flags : (a : ConnectionArgs) → lookup flags (tls_kwargs a) ≡ nonzero a.flags
unfolding tls_kwargs lookup
tls_flags a = simp (lookup-put_given, lookup-put_nonzero, lookup-put_true, or_else-none)

-- Without `ssl`, each option of `create_connection` but `flags` reaches the native method with the
-- value that the caller gave, if that is not the default, and no other option does; `flags` never
-- does, though it does with `ssl`.
pub connection_kwargs-lookup :
    (a : ConnectionArgs) (k : Keyword)
    → (lookup k (connection_kwargs a) ≡ (if rank k == rank flags then none else asked a k))
      × (lookup flags (tls_kwargs a) ≡ nonzero a.flags)
connection_kwargs-lookup a k = (plain_lookup a k, tls_flags a)

-- Without `ssl`, the options that reach the native `create_server` are those that the caller gave,
-- with their values.
pub server_kwargs-lookup :
    (a : ServerArgs) (k : Keyword) → lookup k (server_kwargs a) ≡ asked_server a k
unfolding server_kwargs lookup asked_server
server_kwargs-lookup a family = simp (lookup-put_given, lookup-put_nonzero, or_else-none)
server_kwargs-lookup a k = simp (lookup-put_given, lookup-put_nonzero, or_else-none)
