-- ===== src/Lib.antt =====
-- kasa_exporter: a Prometheus exporter for Kasa and Tapo devices, and its verification.
--
-- A scrape goes from the collectors (collector/) to the registry (kasa/registry.go), which keeps one
-- managed device for each address (kasa/device.go). A device is connected by negotiation
-- (kasa/connect.go) or as discovery described it (kasa/discover.go), and is read by a querier of its
-- dialect (kasa/iot.go, kasa/smart.go) over a transport (kasa/xor.go, kasa/klap.go, kasa/aes.go). The
-- program (kasa_exporter.go) builds the registry from its flags (config/kasa.go) and serves the
-- collectors that a request asks for. Each part is a file here, with a child module for each group of
-- theorems about it and one, Tests, for concrete runs:
--
--   Xor           kasa/xor.go: xorEncrypt, xorDecrypt and xorTransport.Query
--   Pkcs7         pkcs7Pad and pkcs7Unpad of kasa/klap.go
--   Klap          klapTransport of kasa/klap.go, its keys, encryption and the hashes of credentials
--   Klap.Query    its handshake, Query and Close;
--                 Klap.Device is a device that keeps to the protocol, for the theorems about a dialogue
--   Reading       Reading, Energy, Socket, Child and deviceTypeFor of kasa/device.go
--   Transport     the transport interface of kasa/iot.go
--   Iot           the structures of kasa/iot.go, iotReading, applyLightState, energy, addEnergy
--   Iot.Querier   iotQuerier: Read, retryEmeter, readSockets, readSocketEnergy, query, Close
--   Smart         the structures of kasa/smart.go, smartReading, smartSockets, smartChildren,
--                 applyChildren and the arithmetic of readEnergy
--   Smart.Querier smartQuerier: Read, batch, query, readEnergy, Close
--   Aes           aesTransport of kasa/aes.go, encrypt, decrypt, post, passthrough, aesErrorFor
--   Aes.Query     connect, login, Query and Close;
--                 Aes.Device is a device that keeps to the protocol, Aes.Dialogue a session with it
--   Discovery     discoveryResult of kasa/discover.go and the parsers of replies
--   Discovery.Sweeps  newDiscoverer, probe, collect, discover and discoverHost
--   Connect       kasa/connect.go: connectAs, deviceURL, unicastDiscoveryBudget, negotiate;
--                 Connect.Describe: describe and httpClient
--   Device        Device of kasa/device.go (Read, Close, Alias, Type), and Connect and Discover
--   Registry      kasa/registry.go: NewRegistry, Snapshot, refreshDevices, runDiscovery, reconcile,
--                 readAll, Close; Registry.Steps has the scrapes and background sweeps as steps,
--                 Registry.Pool the goroutines of readAll
--   Wiring        what connectAs of kasa/connect.go builds: the three transports under the two
--                 dialects, as the queriers that Connect and Device work with
--   Collector     collector/metrics.go
--   Collector.Devices, Plug, Strip, Bulb, LightStrip, Dimmer, WallSwitch, Hub
--                 the eight collectors of collector/*.go: their descriptors and their Update
--   Collector.Kinds  the choice of one of them, and execute of collector/collector.go
--   Collector.Kinds.Scrape  Collect and Describe of collector/collector.go
--   Collector.Selection  DisableDefaultCollectors and NewKasaCollector of collector/collector.go
--   Collector.Selection.Toggles  newToggles and toggleTag
--   Collector.Selection.Registered  what the init functions of collector/*.go register
--   Collector.Selection.States  registerCollector, MarkForcedCollectors and SnapshotCollectorStates
--   Config        config/kasa.go: parseHosts, buildOptions, buildRegistry, Registry
--   Web           kasa_exporter.go: newHandler, innerHandler, ServeHTTP; Web.Requests has the requests
--                 after a start as steps
--   Web.Mux       validateMetricsPath and buildMux; Web.Run: run and gitTag; Web.Flags: parseFlags;
--                 Web.Main: main, logConfig, webFlags, versionString
--
-- Base has the shared numbers, texts, lists, maps and sorting, Errors the error values and Result, and
-- Floats the number type. A text or a byte string is a list of numbers; a Go map is an association
-- list, whose order stands for the one in which the runtime iterates. Methods take the state and give
-- it back; an operation under a mutex is one step. A sequence number is its 32-bit pattern, and the
-- header of a frame the four bytes of `n % 2 ^ 32`. Durations and times are nanoseconds.
--
-- Connect, Device and Registry take the queriers as a parameter (Queriers), which Wiring fills. Other
-- parameters stand for code that is not in the repository: float64 (Arithmetic), encoding/json
-- (IotCodec, SmartCodec, SmartJson, AesJson, with Marshals for what is documented of the last), the
-- encodings and character classes (Encoding, Names), the sockets (Peer, Datagram, Udp), net/http
-- and the random source (Http), the hashes and AES-CBC (Crypto, with IsSound and Takes for what is
-- documented of them), RSA (Rsa, with Speaks for what a device's side of all of these has to agree in),
-- the factories of the collectors, the Prometheus registry, the landing page, the HTTP listener, kong's
-- parser, the parsing of durations, and promslog.
--
-- The loops on fuel are those of klapTransport.Query and aesTransport.Query: their two rounds are the
-- bound of the loops in the code. The digits of a number are produced with one round more than the
-- number, which is enough since each round divides by ten. All other loops are recursions on a list.
--
-- Addresses and flags are ASCII. The request number of kasa/smart.go is its 64-bit pattern; all
-- queriers share it, and so it stands in the World of Wiring between reads. A pointer of
-- collectorState is one to a registered variable or to a field of the group of flags. The mux panics on
-- a path that is not plain and absolute, and on one in conflict with a pattern that is registered
-- already, which is a parameter with what is documented of it for paths without escapes
-- (ComparesLiterals). kong prints help or the version and exits by itself (Parsing).
--
-- Not modelled: newParser of kasa_exporter.go, which assembles the options of the command-line
-- package, and that package's work on the flags; the HTTP server; kasa/socket_unix.go and
-- kasa/socket_windows.go, which are one system call; logging, contexts and deadlines. The
-- collectors run concurrently in the code and one after the other here. A background sweep ends
-- between two scrapes, never inside one. The read of one device is one step of Registry.Pool.
pub mod Base
pub mod Errors
pub mod Floats
pub mod Web
pub mod Wiring
pub mod Xor
pub mod Pkcs7
pub mod Reading
pub mod Transport
pub mod Iot
pub mod Discovery
pub mod Connect
pub mod Device
pub mod Smart
pub mod Aes
pub mod Registry
pub mod Klap
pub mod Collector
pub mod Config
