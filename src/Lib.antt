-- ===== src/Lib.antt =====
-- NexusChat: a verification library for the Go services of the repository.
--
-- The program is a set of services over Cassandra, Redis and Kafka. The chat service keeps channels,
-- rooms and messages; the safety service judges messages and keeps reports, blocks and rules; the
-- workspace service keeps the items of a channel and tells its WebSocket sessions through a hub;
-- events leave a service through an outbox table; notifications wait in an outbox of their own until
-- a worker delivers them; the match service pairs users who wait, the discovery service ranks
-- candidates, the user service keeps names and friends. Here each service is a set of functions of
-- the code, translated branch by branch, over an outside that is a parameter.
--
-- Files and the code that they model:
--   Base, Base/*: numbers, texts, lists, maps and sets with number keys, shared by all.
--   Effects, Effects/Facts: functions that call the outside. A `World` records every call with its
--     outcome, the newest first; `Env` says which calls succeed and what clocks and identifiers
--     answer. Facts has the rules for statements about the calls that a do block makes (`Makes`)
--     and about the value that it returns (`Returns`).
--   Stateful: fallible operations on a state, with rules for what they keep (`Ensures`, `Keeps`).
--   Realtime/Hub (pkg/realtime/hub.go): NewHub, Add, Remove, Send, BroadcastToChannel, Broadcast,
--     Online and Close are new_hub, add, remove, send, broadcast_to_channel, broadcast, online and
--     close_hub; a *Client is a number, a buffered channel a list with a capacity and a closed flag,
--     and `none` a panic. connect, disconnect and drain are the sessions of `websocket` in
--     pkg/workspace/service.go; Hub/Sessions has their histories as a step relation.
--   Realtime/Outbox (pkg/realtime/outbox.go, pkg/realtime/event.go): NewEvent, PublishDurably and
--     one tick of RelayOutbox are new_event, publish_durably and relay_pass.
--   Workspace, Workspace/Items, Workspace/Lists (pkg/workspace/service.go): saveItem, getItem and
--     the handlers createItem, getItemAPI, updateItem, deleteItem, updateStatus, updateAssignees,
--     and those of checklists and collections, under the same names in this spelling.
--   Notification, Notification/Store, Notification/Worker, Notification/Backoff
--     (pkg/notification/outbox.go, pkg/notification/worker.go): Enqueue, ClaimDue, Complete, Retry,
--     retryDelay and process are enqueue, claim_due, complete_intent, retry, retry_delay and
--     process, over the two tables of the migration 009. A statement succeeds, fails, or fails
--     after it was applied.
--   Safety, Safety/Moderation, Safety/Handlers (pkg/safety/service.go): Moderate, persistDecision
--     and the handlers of reports, appeals, blocks and rules.
--   Chat, Chat/Messages, Chat/Channels, Chat/Rooms (pkg/chat/service.go, pkg/chat/domain.go): the
--     operations on messages, direct channels and rooms, over the repositories as calls.
--   Fallible: functions with an error and no state, and what their success tells of their steps.
--   Realtime/Assertions (pkg/realtime/assertion.go): requestNeedsAssertion, identityField,
--     assertionKeys, signEndUserAssertion and StructAssertionMetadata are needs_assertion,
--     identity_field, assertion_keys, sign_assertion and outgoing. Assertions/Memory has
--     verifyAssertion as verify_assertion, over the nonces in replayedAssertions and the readings of
--     the clock, of which the loop over the nonces makes one for each. The times of an assertion are
--     int64 with its wrap-around, held as the value and 2 ^ 63.
--   Matching (pkg/match/service.go, pkg/match/repo.go, pkg/infra/redis.go): Match and
--     RemoveUserFromWaitList are match_user and remove_from_list, over the sorted set of Redis;
--     Matching/Sessions has the filters of deliverMatchResult and sendMatchResult.
--   Friends, Friends/Requests (pkg/user/repo.go, pkg/user/service.go): CreateFriendRequest,
--     AcceptFriendRequest, DeclineFriendRequest, CancelFriendRequest, RemoveFriend and IsFriend over
--     the tables of Cassandra and their mirror in Redis, and SendFriendRequest above them.
--     Friends/Relations has GetRelationshipStatus and WasFriendRequestDeclined.
--   Accounts (pkg/user/repo.go): CreateUser, UpdateUser, claimUnique and indexUser over the keys of
--     Redis.
--   Discovery (pkg/discovery/service.go): normalize, overlap and Rank.
--   Cassandra: a session of statements, each of which succeeds, fails, or fails after it was applied,
--     and what other instances of the services change between two of them, with rules on Stateful.
--   Storage, Storage/Messages, Storage/Marks, Storage/Channels, Storage/Rooms (pkg/chat/repo.go): the
--     operations of MessageRepoImpl and ChannelRepoImpl over their tables, under the same names in
--     this spelling. Storage/Marks has reactions, pins and searches, Storage/Channels direct channels,
--     roles and WebSocket tickets, Storage/Rooms rooms, their members and invite codes.
--   Chat/Sockets (pkg/chat/http_api.go): initializeChatSession, acquireSession, releaseSession and
--     HandleChatOnClose.
--   RateLimit (pkg/common/ratelimit.go, pkg/uploader/http.go): the script is rate_limit_script, and
--     reserveN, AllowN, Allow and ChannelUploadRateLimit stand above it.
--   Realtime/Authentication (pkg/common/jwt.go, pkg/realtime/auth.go): Auth, NewJWT, Authenticate and
--     RequireUserID.
--   Scenarios/*: concrete runs.
--
-- Bounds and fuel: no function runs on fuel. Loops are recursion on the list or the count that the
-- code goes through; the loop of retryDelay has attempts - 1 rounds, that of ClaimDue eight days.
-- Times are numbers without a bound from 1970 on, in nanoseconds where a file says nothing else,
-- though a timestamp of Cassandra keeps milliseconds only; those of an assertion are of int64.
-- Durations, limits and scores are numbers from 0 on; Moderate panics for a window of 0 seconds. A
-- script of the waiting list that Redis has run answers its caller. In Matching, Friends and Accounts the operations of a history run one after the other; in
-- Storage other instances run between the statements. RateLimit counts in whole seconds.
--
-- Not modelled: HTTP and gRPC transport, the drivers of Cassandra, Kafka and Redis, regular
-- expressions and the printing of numbers (parameters where they are used), goroutines and tickers
-- around a pass, sign-up, login and sessions of the user service, the handlers of the discovery
-- service, the forwarder service, the uploader but for its rate limiter, the cache and the messages
-- that the chat repositories publish, the dispatch of WebSocket messages, generated code, the front
-- end and the AI service. Go's Ed25519, SHA-256, base64 and JSON are parameters of the assertions, bcrypt and
-- OAuth are not modelled, and floating point scores are values of a parameter type. The user
-- repository without a Cassandra session, which its tests use, is left out.
mod Base
pub mod Effects
pub mod Stateful
pub mod Fallible
pub mod Realtime
pub mod Workspace
pub mod Notification
pub mod Safety
pub mod Chat
pub mod Matching
pub mod Friends
pub mod Discovery
pub mod Accounts
pub mod RateLimit
pub mod Cassandra
pub mod Storage
mod Scenarios
