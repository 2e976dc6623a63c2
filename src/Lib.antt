-- ===== src/Lib.antt =====
-- TunFlow: a verification library of the tunnel's core.
--
-- TunFlow takes packets from a TUN device, hands the connections that a network stack makes of them to
-- a tunnel, and dials each of them directly or through a proxy. The engine builds and replaces these
-- parts, the routing policy chooses the way of each connection, and the proxies speak their protocol
-- with the server. The parts that are modelled, with paths from the root of the repository:
--
--   Base     shared: bytes as lists of numbers, results with a run-time panic as a value (an index or a
--            slice out of range), and in Base/Net a connection as io.Reader and io.Writer show it (what
--            the peer sends before it closes, the writes that succeed, what was written), with a Hoare
--            logic for steps over it; in Base/Act steps over any state.
--   Netip    the part of net/netip that is used, from its documentation: addresses as numbers.
--   Socks5   transport/socks5/socks5.go. Socks5/Addr has Addr.Valid, Addr.String (up to text
--            formatting), Addr.UDPAddr, SplitAddr, SerializeAddr, DecodeUDPPacket and
--            EncodeUDPPacket; Socks5/Handshake has ReadAddr and ClientHandshake.
--   Socks4   transport/socks4/socks4.go: ClientHandshake and isReservedIP; splitting and parsing the
--            address text are parameters.
--   Routing  routing/routing.go: parseRule, NewWithConfig, matchIP, routeIP, useDirect, isPrivate and
--            ContainsCountry; Routing/Stats has trafficCounter; Routing/Geo has LoadGeoIP,
--            parseGeoEntry and parseGeoCIDR, with protowire's consumers as a parameter.
--   Engine   engine/engine.go, engine/reload.go, engine/key.go; Engine/Parse has engine/parse.go and
--            proxy/protocol.go. The engine calls Routing's new_with_config. What the system, the
--            standard library and third-party packages answer is the record Outside.
--   Aead     transport/shadowsocks/shadowaead: Aead/Nonce has increment, Aead/Stream has Writer.Write,
--            Reader.read and Reader.Read, Aead/Stream/Copying has Writer.ReadFrom and
--            Reader.WriteTo, Aead/Packet has Pack, Unpack, the ciphers and PacketConn,
--            Aead/Connection has the salts and the methods of Conn. The AEAD and HKDF are parameters; IsAead is
--            what cipher.AEAD documents.
--   Shadowstream  transport/shadowsocks/shadowstream: the ciphers of cipher.go, in Shadowstream/Stream the
--            Writer and the Reader of stream.go, in Shadowstream/Connection its Conn, and in
--            Shadowstream/Packet packet.go. cipher.Stream and the functions of the crypto packages are
--            the record Crypto; IsCrypto is what they document.
--   Ciphers  transport/shadowsocks/core/cipher.go: PickCipher, which picks a cipher of Aead/Packet or of
--            Shadowstream, and Kdf.
--   Allocator  buffer/allocator/allocator.go over internal/pool/pool.go; a buffer is its length and its
--            capacity.
--   Statistic  tunnel/statistic/manager.go and tracker.go.
--   Proxies  dialing over a connection that is given: Proxies/Shadowsocks has
--            proxy/shadowsocks/shadowsocks.go, which picks a cipher of Ciphers, and Proxies/Simple has
--            proxy/socks4/socks4.go, which calls the client of Socks4, proxy/http/http.go,
--            proxy/direct/direct.go and proxy/reject/reject.go.
--   Endpoint core/device/iobased/endpoint.go: the loops between a device, which is the list of what its
--            reads return, and the stack; header.IPVersion is a parameter.
--   Rest     restapi/server.go: the authenticator.
--   Tunnel   tunnel/tunnel.go as moves of its goroutines, and of tunnel/udp.go the copying of packets and
--            the symmetric NAT; a source is the list of what its reads will return.
--   SocksProxy  proxy/socks5/socks5.go, which calls the client of Socks5; a buffer is what it holds.
--   Obfs     transport/simple-obfs: Obfs/Tls has tls.go, Obfs/Http has http.go.
--   Relay    proxy/relay/relay.go, with the coding of the relay package as the record Coding.
--   Netstack core/option/option.go, over a stack that is a record of its functions.
--   Desktop  desktop/app.go, desktop/config_hot_reload.go, desktop/platform_other.go,
--            desktop/platform_windows.go and desktop/platform_startup_windows.go. Desktop/Regular
--            makes the configuration regular and builds the engine's key of it, Desktop/Disk has the
--            files, Desktop/Control starts, stops and saves, Desktop/Watch looks at the file. It calls
--            the engine of Engine/Run; files, library functions and the platform are the record Host. Desktop/Elsewhere and
--            Desktop/Windows fill the platform; in the latter the commands are lists of their arguments,
--            and what they answer is the record Shell.
--
-- A function of the source that can fail returns a Result; a slice that may be nil is an Option. The
-- loops of the GeoIP reader run on fuel, one more than the bytes there are, which is enough because
-- each round consumes a byte; the loop of Writer.Write has the length of its argument, since each round
-- takes at least one byte of it; bits.Len32 has 32; copyPacketData has
-- one more than the reads that its source will return; the loop of Kdf one more than the bytes of the
-- key, since each digest adds some; Reader.WriteTo of Shadowstream one more than the bytes that
-- will arrive; of Aead/Stream/Copying, ReadFrom one more than the bytes of its
-- source, and WriteTo one more than the bytes that will arrive. Locks are not modelled: a function under a mutex is
-- one step. Of the counters that are atomic variables, those of Routing/Stats are changed one atomic
-- operation at a time where calls interleave, and those of Statistic by a round of handle with whole
-- calls of PushUploaded and PushDownloaded between its atomic operations.
--
-- Not modelled: logging, the window and the tray of the desktop application, the REST handlers behind the authenticator, the gVisor stack, the ssh proxy, and how
-- the proxies get a connection to their server, because they are input and output or calls of third-party packages.
pub mod Base
pub mod Netip
pub mod Socks5
pub mod Socks4
pub mod Routing
pub mod Engine
pub mod Aead
pub mod Allocator
pub mod Statistic
pub mod Desktop
pub mod Obfs
pub mod Netstack
pub mod Relay
pub mod Shadowstream
pub mod Ciphers
pub mod Proxies
pub mod Endpoint
pub mod Rest
pub mod Tunnel
pub mod SocksProxy
