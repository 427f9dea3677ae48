-- ===== src/Lib.antt =====
-- A verification library for ChmlFrp-Frp, a reverse proxy with a server (frps), a client (frpc) and a
-- web dashboard for each of the two. The dashboards are written in TypeScript and Vue under web/, the
-- daemons in Go.
--
-- How the parts interact: the server counts the bytes of each proxy per day (pkg/util/metric, used by
-- pkg/metrics/mem), serves the counts and its state as JSON (server/dashboard_api.go), and the pages
-- of its dashboard fetch these answers and turn them into state, tables and charts (web/frps/src). The
-- client serves its configuration and the state of its proxies, for the pages of web/frpc/src. The
-- server hands out its remote ports by server/ports, also to the groups of proxies that share one
-- (server/group), lets visitors in to secret proxies (server/visitor), keeps the work connections of each client in its control (server/control.go), and
-- routes the requests of its virtual hosts by pkg/util/vhost. The client keeps asking the server to
-- start a proxy, and takes it back when its service fails a check (client/proxy, client/health); a
-- reload of its configuration keeps the proxies that are the same. Two clients that connect directly
-- are told by the server which of them sends first (pkg/nathole).
--
-- The files and what they model:
--   Prelude                  the names shared by all files: Boolean tests, integers, lists, text
--   Web/Value                the JavaScript values and operators that the pages apply to an answer
--   Web/Page                 a handler with its state: what it changed before an exception remains
--   Web/Proxy                web/frps/src/utils/proxy.ts, the rows of the tables
--   Web/Calendar, Web/Chart  web/frps/src/utils/chart.ts, the dates and the three charts
--   Web/Overview             web/frps/src/components/ServerOverview.vue, fetchData
--   Web/View                 the templates of ServerOverview.vue, LongSpan.vue, ProxyViewExpand.vue
--                            and ProxyView.vue in web/frps/src/components
--   Web/Proxies, Web/Traffic the pages Proxies*.vue and Traffic.vue in web/frps/src/components
--   Web/Configure            web/frpc/src/components/ClientConfigure.vue
--   Web/Status               web/frpc/src/components/Overview.vue, fetchData
--   Web/Table                the tables of ProxyView.vue and of the client's Overview.vue
--   Web/Routes               router/index.ts and App.vue of both dashboards
--   Metric/DateCounter       pkg/util/metric/date_counter.go
--   Metric/Server            pkg/metrics/mem/server.go, the statistics of the server and of its proxies
--   Server/Api               server/dashboard_api.go, the answers to /api/serverinfo and /api/traffic
--   Server/Api/Conf          pkg/config/proxy.go, the configurations of proxies as JSON
--   Server/Api/Proxy         server/dashboard_api.go, the answer to /api/proxy/:type
--   Server/Ports             server/ports/ports.go, the manager of the remote ports
--   Server/Group             server/group/tcp.go, the proxies that share a remote port
--   Server/Control           server/control.go, the logged-in clients and their work connections
--   Server/Register          server/control.go and server/proxy/proxy.go, the proxies of all clients and
--                            the number of their ports
--   Server/Visitor           server/visitor/visitor.go, pkg/util/net/listener.go and parts of
--                            server/proxy/stcp.go, the visitors of secret proxies
--   Vhost/Router             pkg/util/vhost/router.go, the routes of virtual hosts, over any payload
--   Vhost/Muxer              pkg/util/vhost/vhost.go, the search of a listener for a request
--   Client/Health            client/health/health.go, the rounds of a monitor of a local service
--   Client/Wrapper           client/proxy/proxy_wrapper.go, the life of a proxy on the client
--   Client/Manager           client/proxy/proxy_manager.go, the proxies of a client and their reload
--   Client/Admin/Status      client/admin_api.go, the answer to /api/status
--   Client/Admin/Config      client/admin_api.go and pkg/config/value.go, the configuration as it is
--                            read and stored
--   Nathole/Classify         pkg/nathole/classify.go, the kind of a network
--   Nathole/Behavior         pkg/nathole/analysis.go, the tables of what the ends of a punch do
--   Nathole/Records          pkg/nathole/analysis.go, the scores of the behaviours
--   Nathole/Analyzer         pkg/nathole/analysis.go, the records of all pairs of ends
--   Util/Int64, Util/Range   pkg/util/util/util.go, the reading of lists of numbers and ranges
--   Util/Version             pkg/util/version/version.go, the order of versions
--   Tests                    concrete runs of the theorems
-- A component has its definitions in the file of its name and its proofs in the folder of that name.
--
-- How state and operations correspond to the code: a page is a record of its refs, its charts and
-- the messages it has shown; a function that fetches takes the outcome of the request, an answer or
-- an exception, as its argument. A chart is the list of the calls on the chart library. A function of
-- the daemons takes the time it reads, and what the operating system answers, as arguments; a section
-- under a lock is one step. The names of functions are those of the source in snake case.
--
-- Bounds: numbers in an answer are integers within 2 ^ 53 (counts, ports and sizes), to which `+` is
-- exact; years are above 99, below which the Date constructor of the source means another
-- century; a text is turned into a number only if it is blank or decimal; texts have one code unit per
-- character; a counter holds an int64 as its residue modulo 2 ^ 64, or an int32 as its residue modulo
-- 2 ^ 32, and its JSON is the number that it stands for. Days have 24 hours except where a theorem says
-- otherwise. Every loop is a recursion on its list, its number of rounds or an accessibility proof,
-- except for the loop over a range of numbers: it counts int64s and runs on fuel, of which 2 ^ 64
-- rounds are enough where it ends at all.
--
-- Not modelled: the rendering and styling of the pages, the library functions they call
-- (Humanize.fileSize and the text of an exception are arguments), the functions of samber/lo, which are
-- parameters with the laws that its documentation states, the equality of two configurations of a
-- client, the templates of a configuration (text/template) and the sort of the table component, which
-- are parameters too, the network code of the daemons,
-- their protocols and plugins, and the tests.
pub mod Prelude
pub mod Web
pub mod Metric
pub mod Server
pub mod Vhost
pub mod Client
pub mod Nathole
pub mod Util
pub mod Tests
