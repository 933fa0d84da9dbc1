-- ===== src/Lib.antt =====
-- WireGuard UI is a web server that administers a WireGuard interface: users log in to it, and
-- administer the clients (peers) of the interface and one another. Its state is a directory of JSON
-- records (store/jsondb over the package scribble), some maps in memory (util/cache.go) and the
-- session cookies of its browsers. This library models that state and the handlers that change it.
--
-- Prelude, Text: Boolean tests, lists, and what the handlers use of the packages strings and regexp
--   (`trim_space`, `equal_fold`, `usernameRegexp` of handler/routes.go as `username_matches`) on
--   strings of characters.
-- Store: the interface of the database driver, `scribble.Driver` on one collection, which is a
--   parameter of all that follows: a record `Driver` of operations and a record `IsDriver` of what
--   the callers rely on. Store.Table is an implementation over an association list.
-- Session: handler/session.go. A request with its session and cookies is a `Context`, a handler a
--   function from a context to a context and an answer, and the three middlewares `ValidSession`,
--   `RefreshSession` and `NeedsAdmin` are functions on handlers. Times are seconds, not bounded.
-- Users: model/user.go, the user methods of store/jsondb/jsondb.go with the cache
--   `DBUsersToCRC32`, the two guards of the last administrator, the handlers `CreateUser` to
--   `RevokeUserSessions` (Users.Handlers, Users.Update) and `Login`, `Logout` with
--   `setLoginSession` of handler/passkeys.go (Users.Login) in handler/routes.go, and
--   `GetDBUserCRC32` of util/util.go. A handler takes the world and the context and returns both
--   with its answer. A body is given decoded. bcrypt, JSON and CRC-32 are the parameter `Crypto`.
--   Users.Passkeys models the requests of handler/passkeys.go that remove and rename credentials, and
--   with Users.Passkeys.Register and Users.Passkeys.Assertion the ceremonies of registration and login:
--   the maps of pending challenges are association lists, the library WebAuthn is the parameter
--   `WebAuthn`, and whether `webauthnForRequest` finds a configuration is given.
-- Server: model/server.go, model/setting.go, the records of the server in store/jsondb/jsondb.go with
--   their hashes in util/util.go, and the handlers of handler/routes.go that change them:
--   `GlobalSettingSubmit` and `APISetRealtimeStatsEnabled` (Server.Settings), `WireGuardServerSave` and
--   its two older forms (Server.Handlers). Server.Apply runs Tunnel.Apply over the stored records. The
--   hash of files, `net.ParseIP` and the text of the template are parameters.
-- Net: the functions on addresses of util/util.go, on lists of bytes; `net.ParseCIDR` and
--   `IP.String` are the parameter `NetText`. The loop of `GetAvailableIP` runs on fuel, and its
--   theorem asks for fuel beyond the number of steps that lead out of the network. Net.Ranges models
--   the subnet ranges of util/config.go and util/util.go and `SuggestIPAllocation` of
--   handler/routes.go; Go's set of suggestions is a list without duplicates, in some order.
-- Telegram: the map `TgUseridToClientID` and the functions of util/util.go on it. It is an
--   association list; the order of Go's iteration does not show, as each user has one entry.
-- Clients: model/client.go, the client methods of store/jsondb/jsondb.go, and the handlers
--   `NewClient` (Clients.Create), `UpdateClient`, `SetClientStatus` and `RemoveClient`
--   (Clients.Edit) of handler/routes.go. They call Net for the check of addresses and Telegram for
--   the map. Keys, ids and times of a request are its parameter `Request`. Clients.Config models
--   `BuildClientConfig` of util/util.go with the two functions on endpoints that it calls.
-- WakeOnLan: model/wake_on_lan_host.go, store/jsondb/jsondb_wake_on_lan.go and the handlers of
--   handler/routes_wake_on_lan.go over the driver; the sending of a packet is a parameter.
-- Push: the rate limiter of pushnotify/pushnotify.go, with times in nanoseconds from an origin at
--   least a window in the past, and the token file of pushnotify/tokens.go (Push.Tokens),
--   which a write that is cut short leaves broken. Over both,
--   Push.Broadcast models `Broadcast`, `PeerCreated` to `PeerEnableChanged` and
--   `TunnelRunningTransition`: each turn of the loop has its `Moment`, with its time and the answer of
--   the messaging service. Push.Handlers models handler/push_token.go.
-- Traffic: handler/wg_traffic_cache.go. The arrays of the ring are one list of slots, floating-point
--   numbers and their operations are the parameter `Floats`, and times and counters are natural
--   numbers below 2^63, of which no sum wraps; the number of a bucket before time zero is `none`. A
--   map is an association list in the order of its first writes, which picks among equal top peers
--   where Go's iteration picks any. Traffic.Series models `buildSeries`, Traffic.Snapshot the record of
--   model/traffic_cache_snapshot.go with its way to the database and back.
-- Tunnel: util/wg_quick.go and util/wg_synconf.go. The file system is a function from paths, the
--   failures of its calls are `Faults`, and `wg-quick`, `systemctl` and `wg` are the parameter
--   `Programs`, with the record `IsWg` of what their manuals promise of a success: `wg-quick up` and
--   the restart of a unit bring the interface up with a file, the unit with the one of its own name
--   under `/etc/wireguard`, and `wg syncconf` loads the keys, port and peers that `wg-quick strip` leaves
--   of a file. An error of `os.Stat` on a pending file that exists is not modelled. Tunnel.Apply models
--   `applyWireGuardConfigToDisk` and `ApplyServerConfig` of handler/routes.go over them, where the text
--   that `WriteWireGuardServerConfig` renders is given, and Tunnel.Control the requests that start and
--   stop the tunnel, with their notices.
-- Examples: each theorem at a concrete input.
--
-- Requests are served one after another: the handlers take no lock that spans their reads and
-- writes, and their interleavings are not modelled. Logging leaves no trace in the model, and the
-- handlers of clients are modelled without the notices that they send. Not modelled are the pages and
-- the router, the origins of `webauthnForRequest`, the locale, mail and
-- the Telegram bot.
pub mod Clients
pub mod Examples
pub mod Net
pub mod Prelude
pub mod Push
pub mod Server
pub mod Session
pub mod Store
pub mod Telegram
pub mod Text
pub mod Traffic
pub mod Tunnel
pub mod Users
pub mod WakeOnLan
