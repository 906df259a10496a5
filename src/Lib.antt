-- ===== src/Lib.antt =====
-- RouteX, a TCP and UDP reverse proxy: a model of the decisions that it takes for each connection
-- and each datagram, with proofs.
--
-- The parts, and how they interact. A proxy instance accepts a client's connection. The address is
-- checked against the global rules and the proxy's own (internal/acl, composed in
-- internal/proxy/manager.go) and against the protection engine (internal/l7), which also sees the
-- payloads. The connection then gets a target from the balancer (internal/lb), a destination port
-- from the port resolver (internal/proxy/portmap.go) and an entry in the connection registry
-- (internal/proxy/conn.go). The health checker (internal/health) tells the balancer which targets
-- are up. The tracker of internal/bandwidth counts the bytes and suspends a proxy over its quota.
--
-- The files:
-- - Common holds lists, integers, association lists, sums over them and results; Net holds what the program uses of
--   Go's net.IP and net.IPNet.
-- - Lb: internal/lb/balancer.go and picker.go. Target, Sticky, Algorithms and Balancer hold the
--   definitions (New, Pick, Release, SetHealth, PruneSticky and the five algorithms); the other
--   children hold the theorems, each on the part that it is named for.
-- - Health: internal/health/checker.go. Checker holds New, Start, Stop, Healthy and probeOnce;
--   Streaks is about histories of one target, Marks about the checker and the balancer together.
-- - Acl: internal/acl/engine.go. Engine holds the definitions, Compose composedACL and dynamicACL of
--   internal/proxy/manager.go; Decisions and Edits hold the theorems.
-- - L7: internal/l7. Patterns is patterns.go; Inspector and Bans are inspector.go; Window and Bucket
--   are ratelimit.go; Engine is engine.go; VarInt, Inspection, Log, Scores, Steps, Blocks, Banned and
--   Offences hold the theorems.
-- - Proxy: internal/proxy. Portmap is portmap.go, Conn is conn.go, Numbers is itoa and parsePort of
--   helpers.go.
-- - Udp: internal/proxy/udp.go. Sessions holds getOrCreateSession, the end of readUpstream and
--   reapSessions, Datagrams the loop of Start with its guards, Flood that loop over many datagrams;
--   Readers, Reaping and History hold the theorems on the sessions.
-- - Tcp: internal/proxy/tcp.go and draining.go. Drainer is draining.go; Connections and Events hold the
--   loop of Start and handleConn, cut at its waits into stages; the other children hold the theorems.
-- - Instances: internal/proxy/manager.go. Settings holds what the manager reads of a configuration,
--   Build buildInstance, Manager the tables with Start, Stop and StopAll; the other children hold
--   the theorems.
-- - Bandwidth: internal/bandwidth/tracker.go.
-- - Text: strings and numbers as texts, a model of what the program uses of Go's strings and strconv.
-- - Config: internal/config/proxy.go. Ports is parsePortRange, RateLimits is validateRateLimits.
-- - Iptables: internal/iptables. PortList and Rules are rules.go, Validator is validator.go; Agreement
--   compares the two validators, RoundTrip portList with parsePortRange, and Scope is on the rules.
--
-- How the code is read. An object is a record and a method is a function that gives the new record
-- back; a lock's critical section is one such function, so a run is a sequence of them. Where the code
-- leaves a critical section between two effects, the file says how the model orders them. The clock
-- is an argument, in nanoseconds, and in seconds for internal/bandwidth. Slices are lists, and maps
-- are association lists with different keys. Go's int and int64 counters are unbounded here; the
-- unsigned counters of internal/acl and the cursor of the balancer wrap around at 2 ^ 64, and so do the
-- sum of the weights and the expiry of a sticky mapping, as an int and an int64.
--
-- What is a parameter: the text of an address (IP.String), the parsers ParseCIDR and ParseIP, the
-- random source of the balancer, the calendar of a location, the outcome of each dial, and the
-- float64 operations of the token bucket, of which one theorem asks that the comparisons order the
-- numbers.
--
-- Every loop is structural recursion, over a list or a count, so no definition runs out of fuel.
--
-- What is not modelled: sockets, goroutines and tickers, the copying of bytes, the HTTP interface,
-- logging, YAML and the file watcher; the validation of a proxy beyond its
-- ports and rate limits, the bookkeeping of the firewall's rules, and the metrics store. A TCP proxy and a UDP proxy are modelled each with a balancer and a registry of its own,
-- which the proxies of one instance share in the program.
pub mod Acl
pub mod Bandwidth
pub mod Common
pub mod Config
pub mod Health
pub mod Instances
pub mod Iptables
pub mod L7
pub mod Lb
pub mod Net
pub mod Proxy
pub mod Tcp
pub mod Text
pub mod Udp
