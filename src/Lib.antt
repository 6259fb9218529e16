-- ===== src/Lib.antt =====
-- Verification of the core of the Cere DDC SDK for JavaScript: how content is cut into chunks and
-- pieces, how an operation finds a storage node, and how it is tried again.
--
-- The program's parts and how they meet: an application stores and reads entities through the client
-- (packages/ddc-client/src/DdcClient.ts). It stores a file through the file storage
-- (packages/file-storage/src/FileStorage.ts), which cuts it into pieces (packages/ddc/src/Piece.ts)
-- with the chunking transform (packages/ddc/src/streams/createStream.ts) and gives each piece to a
-- balanced node (packages/ddc/src/nodes/BalancedNode.ts). For each attempt the balanced node asks the
-- router (packages/ddc/src/routing/Router.ts) for a storage node that it has not tried. The storage
-- node (packages/ddc/src/nodes/StorageNode.ts) makes a token for the operation
-- (packages/ddc/src/auth), and calls its file, DAG and CNS APIs (packages/ddc/src/FileApi, DagApi and
-- CnsApi) over one transport (packages/ddc/src/transports), which may give up on time and be tried again
-- by the balanced node. Accounts and buckets are kept by the chain (packages/blockchain/src). The router's
-- strategy gets the nodes of the bucket from a list or from the chain, and sorts them by mode, by
-- priority and by the latency of their pings.
--
-- Files, and the code they are about:
--   Common       shared helpers: native lists, results, JavaScript maps, a stable sort
--   Streams      packages/ddc/src/streams/createStream.ts; streams are lists of chunks
--   Cid          packages/ddc/src/Cid.ts over a base32 codec, which is an interface
--   Piece        packages/ddc/src/Piece.ts
--   Blockchain   packages/blockchain/src: types.ts, as far as the SDK reads it; Transaction (send of
--                Blockchain.ts), Customers (DDCCustomersPallet.ts), Nodes (DDCNodesPallet.ts)
--   Transport    packages/ddc/src/transports: ClientStreaming, Duplex and Unary (the calls of
--                WebsocketTransport.ts) and Timeout (TimeoutInterceptor.ts)
--   Routing      packages/ddc/src/routing: BaseStrategy, NodeType (NodeTypeStrategy.ts), Shuffle
--                (RandomStrategy.ts), Ping (PingStrategy.ts), Strategy (StaticStrategy.ts and
--                BlockchainStrategy.ts) and Router (Router.ts)
--   Nodes        packages/ddc/src/nodes: errors (NodeError.ts), Retry (the package async-retry as an
--                interface), Balanced (withRetry of BalancedNode.ts), Operations (its operations),
--                RoutedSource (the router as the node source), Cluster (storage nodes as the nodes)
--   FileStorage  packages/file-storage/src: File.ts and FileStorage.ts
--   Auth         packages/ddc/src/auth and packages/ddc/src/signature: tokens, their derivation and
--                signing; Sdk has sdkToken.ts, createAuthToken of StorageNode.ts and getSdkToken of
--                Router.ts
--   DagNode      packages/ddc/src/DagNode.ts
--   StorageNode  packages/ddc/src/nodes/StorageNode.ts with CnsRecord.ts, over the file, DAG and CNS
--                APIs as an interface; Wired has the APIs of the constructor
--   FileApi      packages/ddc/src/FileApi/FileApi.ts with packages/ddc/src/validators; Calls has the
--                operations with their metadata
--   Activity     packages/ddc/src/activity and createRpcMeta.ts: activity requests and RPC metadata
--   CnsApi       packages/ddc/src/CnsApi/CnsApi.ts
--   DagApi       packages/ddc/src/DagApi/DagApi.ts with its validator
--   DdcUri       packages/ddc-client/src/DdcUri.ts
--   Client       packages/ddc-client/src/DdcClient.ts: store and read; Account has deposits and buckets,
--                Access has grantAccess
--   Cli          packages/cli/src: upload/uploadDir.ts, download/downloadDir.ts and downloadFile.ts
--
-- State is passed explicitly: the caches of a strategy, the map of pings, the router, the state of a
-- retried operation, and the world of the file storage's node. What the program does not decide is an
-- argument: random draws, the answers of the chain, the events of pings while a call waits, the answers
-- of nodes. A method of the source keeps its name in snake case; methods of several classes with one
-- name are told apart by their modules.
--
-- Numbers are native natural numbers; a byte is a number. The loop of the chunking transform runs on
-- fuel, one more than the bytes that it holds, which is enough for a positive chunk size; the search for
-- a power of 2 has the number itself as fuel, which is enough since the powers double from 1; the other
-- loops are structural. The rounds of retries are those of the library's interface.
--
-- Not modelled: logging, the generated RPC code and the form of its messages, the native gRPC transport,
-- the pallets that only pass calls on, the signers, and of the command line all but directories. The ping
-- of a node (a request with a timeout) is an event that measures a latency or fails. A promise that
-- stays pending is none, or a deferred value that is pending.
pub mod Common
pub mod Streams
pub mod Routing
pub mod Blockchain
pub mod Nodes
pub mod Cid
pub mod Piece
pub mod FileStorage
pub mod Activity
pub mod Auth
pub mod Client
pub mod Cli
pub mod CnsApi
pub mod StorageNode
pub mod DagNode
pub mod DagApi
pub mod FileApi
pub mod DdcUri
pub mod Transport
