-- ===== src/Lib.antt =====
-- A model of the core logic of the local server of Any: the reference language `any://`, the event
-- bus with its bridge to the network, the gate of the engine, the process registry, the topics of
-- push notifications, read tracking of chats, the block model of markdown documents, and what the
-- search index is fed.
--
-- The parts, and the files that model them:
-- * anyuri/anyuri.go (URI, Build*, URI.String, Parse, the strict tests) is Anyuri.antt. Its
--   grammar, written apart from the code, is Anyuri/Grammar.antt.
-- * anyuri/links.go and anyuri/mentions.go (ExtractLinks, ExtractMentions, URI.Canonical,
--   URI.ObjectKey) are Anyuri/Links.antt. They call Parse and URI.String.
-- * internal/server/events_hub.go is Events.antt (eventFilter, typeFilterMatches) and
--   Events/Hub.antt (eventHub: subscribe, unsubscribe, publish, fanout, matchCount). A publish
--   runs taps, of which the process registry is one.
-- * internal/server/events_topics.go (eventTopic, filterPatterns, patternSubsumes,
--   maximalPatterns) is Events/Topics.antt: how an event and a filter of the hub reach other
--   devices.
-- * internal/server/events_bridge.go is Events/Bridge.antt (acquireScope, releaseLocked,
--   resyncLocked, the retry timer, detach): it subscribes to the maximal patterns of its clients.
--   The model keeps beside each scope the SDK's subscriptions that were made for it and not
--   cancelled, a pattern as often as it is subscribed to. What is acquired and not released yet is a list of leases, in Events/Bridge/Leases.antt.
-- * internal/server/handlers_events.go (the checks of eventsPublish and eventsSubscribe, the scopes
--   of a subscription, networkPublish) and deliver of the bridge are Events/Requests.antt.
-- * internal/server/gate.go (engineGate: enter, leave, close, reset) is Gate.antt: the requests in
--   flight while engines come and go.
-- * internal/server/processes.go and the types of internal/api/process.go are Processes.antt: a
--   view that `apply` folds the process events of the bus into.
-- * internal/markdown/split.go is Markdown/Lines.antt (the tests on a line) and
--   Markdown/Split.antt (splitLines, Split, the consumers), which has Join of
--   internal/markdown/join.go too.
-- * internal/markdown/match.go (applyEdits, resolveEdits and the matchers) is Markdown/Edits.antt.
-- * internal/markdown/diff.go (DiffWithThreshold, lcsByHash, fillGap) is Markdown/Diff.antt.
-- * internal/push/topics.go (desiredSubs, spaceTopics) and the topics of internal/push/chatpush.go
--   (NotifyChatMessage, NotifyChatEdit, addedMentions) are Push.antt.
-- * internal/chat/reading.go (classifyRead) is Chat.antt: which changes of a chat count as unread.
-- * internal/editor/lexids.go (NextPos, AllocateRun) is Editor/Lexids.antt, and
--   internal/editor/window.go (Windows) is Editor/Windows.antt.
-- * internal/indexer/chunk.go (chunkDocId, expandEntry, splitText) is Indexer/Chunk.antt.
-- * What these use of Go's package strings is Strings.antt; Common.antt and the files below it
--   have the helpers that all share.
--
-- How code and model correspond: a Go string is the list of its bytes; a slice is a list; a map is
-- an association list, or the list of its entries where only iteration and membership matter; a
-- pointer that may be nil is an Option; an error keeps its class and not its text. A mutex-guarded
-- method is one step from a state to the next. A time is the nanoseconds of the local clock, and an
-- operation takes it as an argument; an int64 of a request is an integer, and is kept as a natural
-- number once the code has clamped it at 0. What a subscriber's channel holds is a queue of at most
-- 16 events.
--
-- Fuel: the loop of paramValue runs on the length of the text, since a round takes a byte of it at
-- least; that of ExtractLinks on the length of the text, since a round passes over the prefix; that
-- of Split on the number of lines, since a round takes a line. The exact matcher runs on the length
-- of the text, since a round passes over a match, and the fuzzy one on the number of lines. The loop
-- of splitText runs on the number of runes, since a round takes one at least, and strconv.Itoa on
-- the number itself.
--
-- Parameters: json.Unmarshal of a process event is the function `decode` of Processes.apply, of
-- which nothing is assumed. The hex digits of SHA-256 are the function `sha256_hex` of Push; its
-- theorems ask that they hold no slash, and that no other chat of the space has the hash of the one
-- in question. Unicode's normal form is the function `nfkc` of Markdown/Edits, of which nothing is
-- assumed. The hash of a block, the character diff and the scores of the diff are the arguments
-- `hash` and `scoring` of Markdown/Diff, of which nothing is assumed. What the SDK's Subscribe
-- answers at each pattern is an argument of the bridge's steps. The check of a rendered topic is the
-- argument `valid_topic` of Events/Requests, of which nothing is assumed, and JSON of a wire event
-- the pair `marshal` and `unmarshal`, which one theorem asks to read back the event in question.
-- The allocator of the package lexid is the argument `lexid` of Editor/Lexids, with its laws in
-- Editor/Lexids/Runs.antt: what it gives sorts behind, or between, what it is given.
--
-- Not modelled: the decoding of requests and the streaming around the bus and the registry, the
-- resolution of a scope's pub/sub handle, the stores, the indexers and the client, which are I/O
-- over third-party packages; the conversion of internal/markdown; internal/bundles and
-- internal/catalog, and the handlers of internal/chat and internal/editor; internal/server/docs,
-- which is generated.
mod Common
pub mod Strings
pub mod Anyuri
pub mod Events
pub mod Markdown
pub mod Processes
pub mod Push
pub mod Gate
pub mod Indexer
pub mod Editor
pub mod Chat
