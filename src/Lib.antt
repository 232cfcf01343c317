-- ===== src/Lib.antt =====
-- Verification of shitflared, a fork of cloudflared (Go) that serves quick tunnels.
--
-- The program connects to the Cloudflare edge and proxies traffic from there to local origins. The
-- development models the parts in which its own logic lies, one tree of modules for each:
--
-- - Flow (flow/limiter.go): the limiter of active flows. `acquire`, `release`, `set_limit` are
--   Acquire, Release, SetLimit. Flow/Bounds has the laws of any run of calls.
-- - V3 (quic/v3): the datagram protocol. V3/RequestId (request.go); V3/Wire, V3/Registration,
--   V3/Payload, V3/Response (datagram.go): the codecs, `marshal` and `unmarshal` and their kin for
--   MarshalBinary and UnmarshalBinary; V3/Manager (manager.go): the session table, which uses Flow;
--   V3/Muxer (muxer.go, Migrate of session.go): registration, migration and demultiplexing over both.
-- - EdgeDiscovery (edgediscovery): AddrSet, Region, Regions (allregions/address.go, region.go,
--   regions.go) and Edge (edgediscovery.go): which connection uses which edge address. AddrSet/Counts,
--   Region/Flat and Regions/Flat show the layers to be one map from addresses to users; Edge/Invariant,
--   Edge/History and Edge/Failover have the theorems.
-- - Server (cmd/cloudflared/main.go): the HTTP server of quick tunnels. Server has validation and the
--   state; Server/Steps the steps of the handlers (check_start, register_start, ready_start and kin for
--   handleStartQuickTunnel, check_stop to finish_stop for handleStopTunnel, handle_callback for
--   handleWorkerCallback) and their interleaving; Server/Frame, Server/Within, Server/Limit and
--   Server/Exhaust the theorems on the limit of tunnels, Server/Request those on requests;
--   Server/Listing is handleListTunnels.
-- - Retry (retry/backoffhandler.go): retries with an exponential backoff, whose shifts wrap and whose
--   random generator panics on a bound that is not positive; Retry/Bounds and
--   Retry/Announced have the theorems.
-- - Supervisor (supervisor): Supervisor/Fuse (fuse.go); Supervisor/Fallback (IpAddrFallback of
--   tunnel.go); Supervisor/Protocol (protocolFallback and selectNextProtocol of tunnel.go over Retry, the
--   protocols of connection/protocol.go); Supervisor/Loop (supervisor.go): the loop of Run as `step` over
--   events, with the theorems in Supervisor/Loop/Invariant, Runs, Progress and Liveness; Supervisor/Serve
--   (Serve and serveTunnel of tunnel.go): an attempt of a connection over EdgeDiscovery, Retry, Tracker
--   and both fallbacks.
-- - Tracker (tunnelstate/conntracker.go, connection/event.go): the connections by index.
-- - IpAccess (ipaccess/access.go): the policy of SOCKS proxies; IpAccess/Search is its binary search.
-- - Ingress (ingress): Ingress/Origin (config.go, with the types of config/configuration.go) has the
--   settings of origins, `from_config` and `to_raw` for originRequestFromConfig and
--   ConvertToRawOriginConfig, Ingress/Origin/Override `set_config` for setConfig with a function for each
--   of its setters; Ingress/Rules (rule.go, ingress.go) the rules, their patterns and the
--   search, Ingress/HostPort the split of a port that they use, and Ingress/Validate validateIngress.
--   Regular expressions, URLs, CIDR texts and punycode are the record `Libraries` of arguments.
-- - Orchestration (orchestration/orchestrator.go): updates of the configuration over Ingress and Flow,
--   `update_config`, `update_ingress` and `shutdown` for UpdateConfig, updateIngress and
--   waitToCloseLastProxy, with the default dialer of ingress/origin_dialer.go; Orchestration/Versions, Requests and Channels have the theorems.
-- - ProtocolSelection (connection/protocol.go, edgediscovery/protocol.go): the selectors of the protocol,
--   whose answers Supervisor/Protocol uses.
-- - DatagramV2 (quic/datagram.go, quic/datagramv2.go): the second version of datagrams; DatagramV2/Sessions
--   (datagramsession, connection/quic_datagram_v2.go): its sessions as `step` over requests, with Flow.
-- - Socks (socks/request.go, socks/request_handler.go): requests and replies of SOCKS5, and `handle` for
--   Handle, which asks IpAccess.
-- - Funnel (packet/funnel.go): the tracker of funnels, `get_or_register`, `unregister` and `cleanup`.
-- - Features (features): the features that a connection asks for, `client_features`.
--
-- Conventions. Go integers are natural numbers; where a w-bit value can wrap, `% 2 ^ w` is written
-- out. A method under a mutex is one step, a function from the state to the state and the result.
-- Errors and panics are values: in V3 a slice or index out of range is `panicked`, on slices whose
-- capacity is their length. Maps are association lists; where the source stops at whatever entry a
-- range over a map meets first, the model takes the choice as an argument, and the theorems hold for
-- every choice. Time, random choices and the outcome of what the operating system does (dialling a
-- socket, sending a datagram) are arguments. Loops are structural
-- recursions, and those of a service are runs over events. Only the binary search of IpAccess has
-- fuel, a round for each port, which is enough since a round at least halves the range.
--
-- Not modelled: logs and metrics, DNS, sockets and HTTP transports, JSON and YAML, the command line,
-- generated and vendored code; nor, of the logic, startFirstTunnel of the supervisor, validation,
-- overwatch, management and prechecks.
pub mod Prelude
pub mod Flow
pub mod V3
pub mod EdgeDiscovery
pub mod Server
pub mod Retry
pub mod Supervisor
pub mod Tracker
pub mod IpAccess
pub mod Ingress
pub mod Orchestration
pub mod ProtocolSelection
pub mod DatagramV2
pub mod Socks
pub mod Funnel
pub mod Features
