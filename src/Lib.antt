-- ===== src/Lib.antt =====
-- Verification of the go-adpwsh library, a Go client that manages Active Directory by sending constant
-- PowerShell scripts with JSON payloads to a management host.
--
-- An operation of a sub-client builds a payload and calls exec. exec adds the operation, the pinned
-- server and the credential, selects a script, logs the masked payload and hands both to a
-- transport, retrying what is classified as transient. The transport returns the output of one
-- process, out of which ParseEnvelope takes the data or a classified error. A warm transport is a
-- pool of executors; over WinRM an executor chooses one of several endpoints when it connects. The
-- sub-clients for organizational units, groups, users, computers and service accounts share their
-- operations: they read an object before they change or delete it, plan the change as one payload, and
-- wait for replication after a write.
--
-- The files, and what they model:
--   Prelude            Boolean tests, lists over the native numbers, byte texts and the functions
--                      of strings and bytes, sorting, JSON documents
--   Core/Errors        errors.go (shortTypeName, classByType, Classify) and the error values
--   Core/Decode        what json.Unmarshal puts into a field of a struct
--   Core/Envelope      envelope.go (envelope, ParseEnvelope, truncate)
--   Core/Mask          core.go (maskedKeys, maskPayload) and payloads of type map[string]any
--   Core/Exec          core.go (exec, backoff, asError, isACLOp, aclCLMVariant), config.go (Dialect)
--   Script/Ops         internal/adscript/ops.go
--   Script/Compose     internal/adscript/script.go
--   Script/Encode      internal/adscript/encode.go
--   Script/Attrs       internal/adscript/payload.go (AttrOps, Apply)
--   Warm/Conn          internal/warm/conn.go, and Run of internal/warm/warm.go on one connection
--   Warm/Pool          internal/warm/warm.go (New, Close) and internal/warm/reap.go; Step and Steps
--                      interleave the Runs and the reaper
--   Winrm/Failover     transport/winrm/failover.go (negativeCache, orderedEndpoints, Connect,
--                      connectBudget)
--   Winrm/Settings     transport/winrm/config.go (WithDefaults, resolvedEndpoints, Validate)
--   Winrm/Wrap         transport/winrm/wrap.go, internal/adscript/wrap.go
--   Winrm/Literal      the reading of a single-quoted literal of PowerShell, and theorems on it
--   Winrm/Cold         transport/winrm/cold.go, and exec of transport/winrm/coldexec.go
--   Adschema/Resolve   internal/adschema/resolve.go (index, closure, record), with Recorded, Demanded and
--                      Termination on what the walk keeps and that it ends
--   Adschema/Catalog   internal/adschema/resolve.go (Resolve, AllStructural)
--   Client/Deleted     core.go (probeDeleted, annotateAlreadyExists)
--   Client/Schema      schema_resolve.go
--   Client/Replication replication.go, config.go (ReplicationConfig)
--   Client/Acl         acl_client.go, cmdletvalues.go (cmdletInheritance)
--   Client/New         client.go (New), config.go (Config)
--   Client/Objects     what the five object clients have in common: Shape for spec.go and
--                      queryPayload, Access for Get, Search and Delete, Writing for Create and
--                      Update, Changes for the payload of Update
--   Client/Ou          ou.go; Ou/Plans for the payload of its Update, and Ou/Script for the commands
--                      of internal/adscript/ops/ou_update.ps1
--   Client/Group       group.go, with the members in Group/Membership
--   Client/User        user.go and userTier1 of spec.go
--   Client/Computer, Client/ServiceAccount
--                      computer.go and serviceaccount.go
--   Client/Laws        theorems about these clients
--   Oop/Framer         internal/oop/framer.go
--   Fake/Objects, Fake/Wildcard, Fake/Filter
--                      transport/fake/filter.go, with the queries of RFC 4515 in Filter/Queries
--   Fake/Search        transport/fake/directory.go (handleSearch, inScope, parentOf)
-- The other files of these folders are proofs about them; Tests applies each theorem to a concrete
-- input.
--
-- Code outside the repository is a parameter: go-adcore (ClassifyCode, Kind.Retryable, EscapeFilter,
-- WithIdentity, the validation of specs, ContainerOf, EqualFoldDN, IdentityArg, ConfirmAbsent and the
-- defaults of queries and retries; the record Adcore holds most of it), encoding/json on texts, the
-- parsing and printing of times, what PowerShell takes as a single quote, the host of the cold WinRM
-- transport, the directory that carries out the commands of a script, base64, the transport below
-- exec, the executors below the pool, clocks and contexts. State is passed explicitly: Session holds
-- the calls, the logged payloads and the waits of one client, World the events of a pool's executors.
--
-- Bounds and fuel. A duration is a number of nanoseconds; the shift in backoff keeps its 64-bit
-- wrap-around, and so does the rotation counter. The walk of the closure has the number of classes
-- plus two as fuel, since each class is entered once. The polling loop of the replication wait has
-- fuel as an argument: one more than the poll intervals that cover the timeout, rounded up, is
-- enough. The loop of splitOutOfProcPackets has the number of bytes as fuel, since each turn
-- shortens the data. The recursion of matchFilter has the length of the filter as fuel. The retry
-- loop and the other loops are structural.
--
-- Simplifications. Text is compared and folded as ASCII. A JSON object is read by the exact name of a
-- member, the first if it is repeated, where encoding/json also matches without case and takes the
-- last. The jitter of the backoff is left out. The messages of errors are kept as the arguments
-- that they are built from. The context of a call ends only in waits, as the function `done` says;
-- what it does to a call under way is part of the transport's answer. The locks that order the writes
-- of one process to one object are left out. A nil slice and an empty one are the same list. A query
-- has a size limit that is not negative once go-adcore has filled in its defaults.
--
-- Not modelled: the PowerShell scripts other than ou_update.ps1; directory.go, which only puts the
-- clients into a struct of go-adcore; the Adapter of internal/oop, and internal/psrun;
-- transport/local, transport/localwarm, transport/ssh, transport/sshwarm and the WSMan messages and
-- the authentication of transport/winrm, which are processes and sockets; the other
-- handlers of transport/fake/directory.go; cmd/adschema, and the fetching and the output of internal/adschema.
pub mod Oop
pub mod Prelude
pub mod Core
pub mod Script
pub mod Warm
pub mod Winrm
pub mod Adschema
pub mod Client
pub mod Fake
pub mod Tests
