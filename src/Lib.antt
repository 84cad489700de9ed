-- ===== src/Lib.antt =====
-- Verification of synctv, a server where the members of a room watch movies together.
--
-- The parts of the program and how they interact. A room in memory (internal/op/room.go) keeps a
-- cache of its members and, once somebody connects, a hub (internal/op/hub.go) of their
-- connections (internal/op/client.go). It reads and writes the tables through the database layer
-- (internal/db), whose rows are those of internal/model. A request asks the room whether its user
-- may do something; the room loads the member through its cache and creates the row on demand.
-- A change of a member writes the table and drops him from the cache. Messages of the room go
-- through the hub's channel, from which one goroutine puts them on each connection's channel.
--
-- Model/: internal/model. Member/ has the status, the role and the permission sets, with the
--   tests on them; Room the status and settings of a room; Movie a movie's row. uint8 enumerations
--   are data types and the uint32 permission sets are numbers, whose complement stays below 2 ^ 32.
-- Model/User: the roles of accounts.
-- Settings: internal/settings with internal/db/setting.go, a setting of the site and its row. Kinds
--   has the types of settings, RoundTrip is about starting again, Passwords about two settings that
--   exclude each other.
-- Db/: internal/db/member.go, room.go and, in Db/User, the statements of user.go on one's own
--   row. A table is a function from its primary key. The outcome of a statement is what gorm
--   reports, an error or the number of rows matched; whether the driver fails a kind of statement
--   is an argument, `Driver`.
-- Utils/: utils/utils.go, `Once`, pages and membership. The products of the pages wrap as an `int`
--   of 64 bits does.
-- Op/Client, Op/Hub: a connection and a hub. A method is a step on the record; the round of
--   `serve` is a step of its own, which may wait, return or panic. A call that puts a message on a
--   channel whose 128 places are taken waits: it is `none`, and what a waiting call of Op/User/
--   Members gives in the end is an argument. Hub/Delivery, Hub/Registry and Hub/Lifecycle are about
--   messages, the map of connections, and starting and closing.
-- Op/Room: the room. Members has the loads through the cache (LoadMember, LoadOrCreateMember,
--   storeMember) and the permission tests, Changes the changes of a member, Settings the settings,
--   the status and the password. Coherence/ is about the cache and the table, Access about the
--   permission tests, Effects about what a change does to the next load, Password about passwords.
-- Op/Site: internal/op/users.go and rooms.go, the caches of users and rooms above the tables. Sound
--   states that they agree with the tables; Loads, Rooms, Steps and Changes are about what keeps it.
-- Server/Access: server/middlewares/auth.go, from a token and the id of a room to the user and the
--   room of a handler; Access/Middleware has the middlewares. Entry and Entered are about the checks
--   of a room, Admitted about a token, Rooms, Requests and Runs about whole requests.
-- Op/Player: internal/op/current.go with internal/model/current.go (Model/Current), what a room
--   plays and where it is. float64 is a parameter; every reading of the clock is an argument.
-- Op/Movies: the cache of movies of internal/op/movies.go, and the passes over it in which a
--   deletion drops what is below the deleted. Op/Movies/Tree: loading a movie through the cache, and
--   IsParentOf and IsParentFolder.
-- Op/User: internal/op/user.go. Account has what an account changes of itself, in memory and in its
--   row. Members has what a user changes in a room, behind the tests of his rights; Members/Calls
--   are these changes as values, Refused and Protected are about who may make them.
-- Proxy/Slice: server/handlers/proxy/slice.go, which serves ranges of a movie's bytes from cached
--   slices. The interfaces Proxy and Cache are records of operations; what a source and a cache
--   promise is stated beside them. Body is about the loop over the slices, Served and Answer about
--   a response, Reliable about a source and a cache that do not fail.
-- Proxy/Header: the texts of Range and Content-Range, in slice.go and in readseeker.go, which parses
--   what a source answers.
-- Proxy/Memory: the cache in memory of server/handlers/proxy/cache.go: a map, a list in the order of
--   use, and Memory/Trie, the tree of prefixes. The list is a library's: `Dllist` is its interface,
--   and Entries states what its documentation promises. Invariant, Eviction and Stored are about
--   one call, Prefix about the search, Runs about sequences of calls.
-- Proxy/Stored: an item of the cache as bytes, with WriteTo and ReadFrom of cache.go.
-- Proxy/Request: the method Proxy from the header of a request on, with the cache in memory behind
--   the interface Cache; Stored shows that the one is the other, Served is about sequences of
--   requests.
-- Base/: results and states, native lists, words, and Base/Text: Go's functions on strings, which
--   are lists of runes there.
-- Examples: the theorems at concrete rooms, hubs and values.
--
-- Stateful code is written in the monad `M` of Base/Result: a state in, a result and a state out,
-- so that the effects of a failed operation are kept. Concurrent maps are atomic, and so each
-- method is one step here; interleavings inside a method are not modelled. bcrypt, CRC-32,
-- JSON, JWT and the hexadecimal hash of a cache key are arguments.
-- The loop over the slices of a response recurs on fuel, which is the number of bytes left to
-- write: every round writes one at least. The passes of a deletion over the cache recur on the
-- number of cached movies and one more: every pass but the last drops a folder. The walk up the
-- parents of a movie recurs on fuel, for which any bound on the depth of the movie is enough; on a
-- cycle of parents the code does not end. The eviction of the cache recurs on the length of its
-- list: every round takes an element off. The digits of a number recur on the number and one more.
-- All other functions recur on a list.
--
-- Not modelled: the cache in files, hooks after a change of a setting, creation and deletion of
-- accounts and rooms, expiration of cache entries and tokens, handlers of requests, vendor
-- services, login providers, email, start-up and the web client, which are glue, I/O or code of
-- other projects. Times and random ids are left out.
pub mod Base
pub mod Model
pub mod Db
pub mod Utils
pub mod Op
pub mod Proxy
pub mod Server
pub mod Settings
pub mod Examples
