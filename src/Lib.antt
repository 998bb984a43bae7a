-- ===== src/Lib.antt =====
-- ida-bridge: a websocket bridge between command-line agents and IDA processes.
--
-- Parts, and the files that model them:
--   Server      src/ida_bridge/server.py and src/ida_bridge/remote.py: `BridgeServer`. State.antt has
--               the server object and its records; Co.antt the coroutines that its methods are; Ownership.antt,
--               Policy.antt, Forward.antt, Reply.antt, Disconnect.antt, Hello.antt, Bridge.antt, Timeouts.antt,
--               Route.antt and Handler.antt its methods, under their names without the underscore; Loop.antt
--               the event loop that interleaves them.
--   Protocol    src/ida_bridge/protocol.py: message classes, validators, error responses,
--               classification of validation errors.
--   Sql         src/ida_bridge/sql/u64.py and src/ida_bridge/sql/rowid.py.
--   Conn        src/ida_bridge/bridge_conn.py, and `shutdown_queue` of src/ida_bridge/ida_runtime.py: the
--               IDA side of a connection. State.antt has the connection and its queue, Send.antt `send`
--               with its fallbacks, Receive.antt the callbacks and the attempts, Loop.antt the single
--               accesses of the two threads in any order, Methods.antt each method as its accesses.
--   Runtime     src/ida_bridge/ida_runtime.py: Handler.antt has `RequestHandler` and its responses,
--               Serialize.antt `serialize_result` on a heap of objects.
--   Tables      src/ida_bridge/sql/tables: Index.antt, Cursor.antt and Columns.antt model base.py (the search
--               for constraints, the decoding of arguments, the cursor, the write contract); Heads.antt
--               heads.py; Xrefs.antt, Instructions.antt, Comments.antt (with its writes) and Flow.antt (blocks
--               and edges) analysis.py; Funcs.antt and Names.antt (with their writes) and
--               Strings.antt core.py. Bounds.antt has the range of addresses that heads.py
--               and analysis.py share, Ida.antt the IDA API.
--   Agent       src/ida_bridge/agent_client.py: `AgentClient`, its handshake and its requests.
--   Process     src/ida_bridge/proc.py: the descendants of a process on Windows.
--   Common      dictionaries, keys, lists, integers and bit operations that the parts share.
--   Examples    a small bridge, and the theorems at concrete inputs.
--
-- How they interact. A connection's `handler` reads frames; what pydantic makes of a text is the
-- parameter `parse`. After the hello it routes requests of agents (`_forward_to_ida` under the ownership
-- policy, `_forward_quit_to_ida`, `_handle_list`, `_handle_remote`) and responses of IDAs
-- (`_forward_to_agent`), and at its end it disconnects the client. The timeout loop runs beside the handlers.
--
-- On the IDA's side the callbacks of the websocket put requests into a queue, which its owner reads; what it
-- answers goes through `send`.
--
-- How code is modelled. A method is a coroutine (`Co`): it reads and writes the server, and at each
-- await (a send, a close, a sleep, the next frame) any other handler may run. `Within` holds of each write
-- of a coroutine whatever runs at its awaits; `Reach` is the event loop with all interleavings; `run` is
-- a coroutine with nothing running at its awaits, for theorems on the whole of one handler. Times are
-- milliseconds of the event loop's clock; a websocket is a number. Dictionaries are association
-- lists in insertion order. The loops over dictionaries recur on the copy of the items that the code takes, so
-- no fuel is needed. Rowids use unbounded integers with Python's shifts, and the 64-bit mask written out.
--
-- Not modelled: logging, the text of JSON, the constraints of single string fields, the start and stop of
-- the server, the log pruning task, the command that `remote` runs, which is the parameter `host_cli`,
-- and on the IDA's side the locks (the accesses of the two threads come in any order) and the length of a
-- message's JSON, which is the parameter `Codec`. What user code does to its environment, and the texts of its exceptions, are parameters too. `serialize_result` recurs on the
-- levels that `max_depth` leaves, so that objects that contain themselves need no fuel.
--
-- The SQL tables. SQLite calls BestIndexObject, whose plan names the constraints that the table checks
-- itself, and then Filter with their arguments. A cursor's generator is the list of its rows, a row's columns
-- are computed when they are read. The IDA API is the parameter `Ida`, with what the tables rely
-- on as hypotheses (`IsDocumented`, `FunctionsDocumented`): heads ascend, segments are disjoint and
-- in order, a function contains its own chunk. Addresses are numbers; the arguments are SQLite integers that
-- are decoded to unsigned ones. What a range constraint asks of a row is SQLite's
-- comparison of signed integers. The binary search of the strings and the walk over processes run on fuel:
-- one round more than there are strings and processes; the theorems show that it is enough.
-- The names, functions, strings, comments, references and flow charts of a database are parameters of their
-- own (`NameList`, `FuncApi`, `StringList`, `CommentApi`, `XrefApi`, `FlowApi`). The text of CREATE TABLE is given by its column names. The agent's client takes what its websocket does as arguments.
-- The other parts of the repository (the hosts of the IDA runtime, the other SQL tables, the CLI, the
-- supervisor) are not modelled.
pub mod Common
pub mod Protocol
pub mod Server
pub mod Conn
pub mod Runtime
pub mod Sql
pub mod Tables
pub mod Process
pub mod Agent
pub mod Examples
