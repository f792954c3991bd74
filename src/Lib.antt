-- ===== src/Lib.antt =====
-- The web UI of TSymbiote (web-ui/src): the single-page app that shows a tailnet as a graph, lets
-- the user select hosts and peers, and runs commands on the selected hosts through the server. The
-- server and the operator, written in Go, are not modelled; nor is what the app only draws.
--
-- Constants (constants.ts) has the numbers and colours. Connection (utils/commandUtils.ts)
-- classifies a ping by the connection it went over. Panel (hooks/usePanelResize.ts) is the height
-- of the output panel as a state with one function per event. Peers (hooks/useOnlineFilter.ts)
-- computes who is online and which peers the selected hosts can reach. Selection (App.tsx) has the
-- graph's data and the two selected sets; each handler is composed with the effects that React
-- runs after it, in the order in which App.tsx declares them. Loading (App.tsx, the first effect)
-- is the peer map's way into that state.
--
-- Api (api.ts) has the calls of the server as functions of what fetch delivers: a call returns, or
-- throws a message; Api.Url has the address of a stream. Ping and PingCommand (fetchPing of
-- App.tsx, components/GraphControls.tsx) go from the selection to the request, and from the answer
-- to the outputs and the edge colours. Console (App.tsx) is the state that commands write;
-- HostCommands has the commands that ask each host for one thing and those that start a stream;
-- Dialogs has the DNS query and the profile, with parseInt written out.
--
-- Stream (hooks/useWebSocketLogs.ts) is the hook for logs and bus events. Its state has the refs,
-- the React state and the browser's sockets, numbered in the order of their creation; a handler or
-- a tick of the interval is one function on it, so that interleavings are sequences of steps. A
-- socket's close is an event of its own, which may come late.
--
-- The server's answers, the JSON parser, atob, the text of a time and the clock are arguments. A
-- JavaScript Set is a list without repetition and a plain object an association list, both in the
-- order of insertion (Prelude.JsSet, Prelude.Dict). Every loop but the JSON highlighter's is
-- structural recursion. A ref or a state setter takes effect at once; where a command waits for an
-- answer, its two halves are two functions, and the whole command is their composition.
--
-- System (App.tsx, components/SidebarPanel.tsx, components/Modal.tsx) puts the parts together: a
-- command is its handler up to the await, and what follows when its answer comes. System.Events
-- lists what can happen to the app, each event under the condition under which its control is
-- enabled; any other event may come between a request and its answer. System.Invariant and
-- System.Sound have the invariant of all reachable states.
--
-- OutputPanel (components/CommandOutputsPanel.tsx) is the choice of what the panel shows, and
-- Goroutines the parser of the same file for a dump of goroutines; Goroutines.Dump has the form of
-- the dumps that it reads back.
--
-- Formats (components/UIComponents.tsx) writes sizes and ages, and Viewer
-- (components/PprofViewer.tsx) offers a profile for download; the browser's object URLs are part
-- of its state.
--
-- Markup (components/UIComponents.tsx) has the two highlighters, which make HTML of a JSON text
-- and of a Go stack trace: Markup.JsonText and Markup.GoTrace go through the texts the way the
-- regular expressions do, character by character, and Markup.Shown says what a browser shows of
-- the result. The replacement of the JSON highlighter runs on fuel, as many steps as the text has
-- characters; no match is empty, so that this is enough.
--
-- Keyboard (hooks/useKeyboardShortcuts.ts) acts on all of this: its state is the app, the panel,
-- the layout and the calls of the graph's camera.
--
-- Js has the values of JavaScript, which the views take as any, and what a component shows of
-- them: Js.Jsx composes content, which is a list in document order or, where rendering throws a
-- TypeError, nothing at all; Js.Shapes has types as tests on values. Widgets
-- (components/UIComponents.tsx) are the rows and lists, Results
-- (components/CommandOutputsPanel.tsx) the view of each command's result, with Results.Types and
-- Results.PeerTypes for the interfaces of api.ts and Results.Content for the panel, and
-- ContextMenu (components/ContextMenu.tsx) the menu of a node. Results.Rendered is about views of
-- values of the declared types. A number is one as JSON writes it; the texts of numbers, sizes,
-- latencies and times are arguments.
--
-- Sidebar (components/SidebarPanel.tsx) has the searched lists and the texts of the two buttons
-- that select everything. Controls (components/SidebarPanel.tsx, components/GraphControls.tsx,
-- components/CommandOutputsPanel.tsx, components/Modal.tsx, components/FormComponents.tsx,
-- App.tsx) lists the page's controls, each with its text, whether it can be used and what using it
-- does to the state.
--
-- Not modelled: layout and colours that do not carry a meaning, and the graph's drawing;
-- formatLatency and the server's local times, which are floating-point and locale matters.
--
-- Tests has a concrete application of each result with hypotheses.
pub mod Prelude
pub mod Constants
pub mod Controls
pub mod Connection
pub mod Panel
pub mod Peers
pub mod Selection
pub mod Api
pub mod Ping
pub mod Stream
pub mod Console
pub mod HostCommands
pub mod Dialogs
pub mod PingCommand
pub mod Loading
pub mod Keyboard
pub mod Markup
pub mod Goroutines
pub mod Viewer
pub mod Formats
pub mod Js
pub mod Widgets
pub mod Results
pub mod ContextMenu
pub mod OutputPanel
pub mod Sidebar
pub mod System
mod Tests
