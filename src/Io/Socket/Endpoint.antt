-- ===== src/Io/Socket/Endpoint.antt =====
-- The descriptor of a socket and the text of its address: `setfd`, `bind`, `listen` and `accept` of
-- src/io/socket.cpp, behind the system calls. The host is little-endian.
use theme_srv.Common.{ℕ, Bool, true, false, Option, none, some, ◌++◌, ◌≡◌, refl}
use theme_srv.Core.Text.{Text, StringTheory, codes}
use theme_srv.Core.Uuid.{swap_endian}

-- A `sockaddr`: the address as it stands in memory and the port as a number of the host, or
-- another address family.
pub data Address : Type 0 where
  inet inet6 : Text → ℕ → Address
  other : ℕ → Address

-- `m_fd`, none for -1, and `m_addr`.
pub record Endpoint : Type 0 where
  pub fd : Option ℕ
  pub addr : Text

-- The constructor
abbrev pub unset : Endpoint
unset = record { fd = none; addr = codes "" }

-- `ntohs`
abbrev pub host_port : ℕ → ℕ
host_port port = swap_endian 2 port

-- What the system gives: `inet_ntop`, which may fail, and `getsockname`.
pub record Names : Type 0 where
  pub ntop : Address → Option Text
  pub sockname : ℕ → Option Address

module _ (st : StringTheory) (names : Names) where
  cached : Endpoint → Option Text → ℕ → Endpoint
  cached sock none port = sock
  cached sock (some text) port = record sock {
    addr = text ++ (codes "/" ++ st.from_uint (host_port port));
  }

  -- The text of the remote endpoint
  unfoldable pub cache_addr : Endpoint → Address → Endpoint
  unfolding cached
  cache_addr sock (inet addrin port) = cached sock (names.ntop (inet addrin port)) port
  cache_addr sock (inet6 addrin port) = cached sock (names.ntop (inet6 addrin port)) port
  cache_addr sock (other family) = record sock { addr = codes "???" }

  -- `setfd(fd, addr)` of a descriptor that is not -1
  unfoldable pub setfd_addr : Endpoint → ℕ → Address → Endpoint
  setfd_addr sock fd addr = cache_addr (record sock { fd = some fd }) addr

  named : Endpoint → ℕ → Option Address → Endpoint
  named sock fd none = sock
  named sock fd (some addr) = setfd_addr sock fd addr

  -- `setfd(fd)`: a descriptor without a name is not taken.
  unfoldable pub setfd : Endpoint → Option ℕ → Endpoint
  unfolding named
  setfd sock none = record sock { fd = none }
  setfd sock (some fd) = named sock fd (names.sockname fd)

  -- The end of `accept`, for what `accept4` gave.
  unfoldable pub accept : Endpoint → Option (ℕ × Address) → Bool × Endpoint
  accept client none = (false, client)
  accept client (some (fd, addr)) = (true, setfd_addr client fd addr)

  -- The descriptor is set whatever its address is.
  cache_addr-fd : (sock : Endpoint) (addr : Address) → (cache_addr sock addr).fd ≡ sock.fd
  unfolding cache_addr
  cache_addr-fd sock (inet addrin port) = go (names.ntop (inet addrin port))
    where
      go : (o : Option Text) → (cached sock o port).fd ≡ sock.fd
      go none = refl
      go (some text) = refl
  cache_addr-fd sock (inet6 addrin port) = go (names.ntop (inet6 addrin port))
    where
      go : (o : Option Text) → (cached sock o port).fd ≡ sock.fd
      go none = refl
      go (some text) = refl
  cache_addr-fd sock (other family) = refl

  pub accept-fd :
      (client : Endpoint) (fd : ℕ) (addr : Address)
      → (accept client (some (fd, addr))).1.fd ≡ some fd
  unfolding accept setfd_addr
  accept-fd client fd addr = cache_addr-fd (record client { fd = some fd }) addr
