-- ===== src/Lib.antt =====
-- Verification of the two Web-UIs of Lens3 that manage bucket pools, in v2 and in v1: the page of
-- v2/lens3/ui2/lens3ui.js with that of v1, and the Vue client of v2/lens3/ui/assets/index.js (Lens3's own
-- part of the bundle: lens3c and the components) with that of v1/ui/src.
--
-- The program. A page (v2/lens3/ui2/index.html) holds four sections: making a pool, the pool list, and the
-- two sections of the editor, with buckets and with access keys. A click runs a function kick_*, which sends
-- a request by an api_* function. submit_request shows a message, adds the token against cross-site requests
-- as a header, and hangs the functions for the response on the request. When the response arrives it is
-- shown, and its data goes to set_user_info_data, set_pool_list_data or set_pool_data, which copy it to the
-- global pool_data, render lists of nodes with buttons, and choose the displayed sections.
--
-- The Vue client sends requests to the same server. Its state is the reactive pool_data, which Vue shows; an error opens
-- a dialog.
--
-- The model. Js.antt holds what the code uses of the language: values (Js/Value), decimal numbers
-- (Js/Number), JSON.stringify (Js/Json), and Date in UTC (Js/Date). Ui.antt holds the program.
--   Ui/Node     the nodes that are created, and the handlers of their buttons
--   Ui/State    pool_data, the elements of the document that the code names, the requests under way
--   Ui/Code     code that changes the state and may throw; an exception leaves the state where it is
--   Ui/Times    parse_time_z, format_time_z
--   Ui/Render   display_*, render_*
--   Ui/Data     show_message, set_*_data, make_pool_entry_for_printing, copy_*_for_edit
--   Ui/Api      submit_request, api_*, run_edit_pool
--   Ui/Actions  kick_*, the arrival of responses, and one step function over all events
-- The rest is about these:
--   Ui/Spec      what the server describes, as typed data, and the page that it should become; the
--                children are about the handlers of responses, the buttons of that page, and the
--                lists of keys
--   Ui/Views     which sections are displayed, through all events
--   Ui/Requests  the requests under way, how many there are, the token that they carry, the
--                responses that may follow from them, those with errors, and the request for a key
--   Ui/Quiet     a rule for each function that fills pool_data and the document
--   Ui/Times/RoundTrip, Js/Date/Calendar, Js/Date/Text, Js/Date/Cut, Js/Number/Reading
--                printing, reading and cutting of dates, and numbers
--   Ui/Tests     runs on sample data
-- Vue.antt holds the client in the same way.
--   Vue/State, Vue/Code, Vue/Times
--                pool_data_ and the requests under way, code that may throw, format_time_z and the
--                expiration of a new key
--   Vue/Client   submit_request, the api_* methods, edit_pool, set_user_info_data, set_pool_list,
--                set_pool_data
--   Vue/Actions  the methods of PoolMake, PoolList, PoolEdit, AlertPopup and AboutMenu, the arrival of
--                responses, and one step function over all events
--   Vue/Tree, Vue/View
--                the render functions of the components, as trees, and the buttons and the dialog
--                that they render
--   Vue/Spec     what the client should become on what the server describes, and what its buttons do
--   Vue/Sent, Vue/Token, Vue/Startup, Vue/Expiry, Vue/Failure
--                the requests under way; the token that they carry; the user's information and the
--                first list of pools; the expiration of a key from the date picker to the list;
--                responses with errors
--   Vue/Quiet    a rule for each function that fills pool_data
--   Vue/Tests    runs on sample data
-- V1.antt holds the page of v1/src/lenticularis/ui2/lens3ui.js: its functions with the text of v2's are passed
-- on under their names (V1/Render, parts of the others), the functions that differ and those that call them
-- are defined (V1/Data: a label; V1/Api: parse_time_z without rounding; V1/Actions: the event loop). V1/Rounding
-- and V1/Likeness compare the two pages. VueV1.antt holds v1's Vue client in the same way, from v1/ui/src:
-- VueV1/Client (lens3c.ts: the expiration of a new key is not rounded), VueV1/Actions (the methods of the
-- components), VueV1/Panels and VueV1/Frame (their templates, with other texts); VueV1/Whole, VueV1/Likeness
-- and VueV1/Buttons compare the clients of v1 and v2.
-- Twins.antt is about the page of ui2 and the Vue client of v2 side by side: clicks that are the same in both,
-- the requests that they send, and what they keep of a pool (Twins/Shown).
-- Reg.antt holds the server of the UIs, the registrar of v2/lens3/registrar.go, on the pools that are there:
--   Reg/KeyVal   the tables of the keyval-db, which is a parameter, with laws for GET, SET, DEL and SCAN
--   Reg/Flow     code that returns, answers with an error, stops by a null pointer, or quits the service
--   Reg/Records, Reg/Table
--                the records and the functions of v2/lens3/table.go
--   Reg/World    the configuration, and what the libraries and the Multiplexer answer, as parameters
--   Reg/Naming   the names that v2/lens3/utility.go accepts
--   Reg/Pools    gather_pool_prop of v2/lens3/poolprop.go, the state of a pool of
--                v2/lens3/multiplexer.go, the removal of a pool
--   Reg/Access, Reg/Checks
--                the check of the user, of the tokens, and of the body of a request
--   Reg/Handlers the handlers for listing and deleting pools, and for buckets and access keys
--   Reg/Desc     copy_pool_prop_to_ui and the responses as values, which Ui/Spec describes
--   Reg/Gathered, Reg/Isolation, Reg/Answers, Reg/Made, Reg/Deleted, Reg/Probe, Reg/Orphan
--                a rule for descriptions; what requests leave of other pools; a description on the
--                page; a new bucket and a deleted key on the page; a pool without its key for
--                probing; a pool without its owner
--   Reg/Memory, Reg/Tests
--                tables as association lists, and requests that are served
--
-- A function has its source's name. The data of a response is a value of any form, so a missing field is
-- undefined and a property of undefined or null is a TypeError, as in the language. A response may arrive
-- for any request under way, in any order, with or without success, with or without data. An uncaught
-- exception ends the function that runs, and the page goes on.
--
-- Bounds and fuel. Numbers in values are natural numbers; the server's numbers are times and there are no
-- others. The text of a number has fuel n + 1, since each round divides by ten; the year of a day is
-- searched among the 400 years of its cycle. A new access key is drawn 30 times at most, as in the source.
--
-- Not modelled: the console; the layout and the static parts of index.html; spellings of numbers and dates
-- other than those that the code meets (digits; YYYY-MM-DD and YYYY-MM-DDTHH:MM:SS[.mmm]Z); the global
-- variable desc, which is written and not read by anything else. The rest of the bundle of the Vue client
-- (Vue and Vuetify, copies of other projects' code) is not modelled: a render function gives a tree of the
-- components and elements that it names, and toDisplayString and renderList are parameters (the record
-- Framework of Vue/View/Parts). The colour theme is not modelled. A value of a response that is no array
-- and no text, but an object with a field of the name length, is taken for one without a length. Of the
-- servers, v1's in Python and the Multiplexer in Go are not modelled; of the registrar, the first request of a
-- session, new pools, routing and logging are not, and a request is served as one step, with one reading of
-- the clock, in whole. An expiration that a request gives is not before 1970. A failure of the keyval-db
-- itself, which the registrar panics on, is not modelled. The expiration that the Vue client sends stops at 0
-- for a day before 1970; its date picker offers no day before yesterday. The rounding of floating point in the
-- expiration that v1's client sends is not modelled.
-- Of the bundle of v1, the sources are modelled and not what vite makes of them.
pub mod Prelude
pub mod Js
pub mod Ui
pub mod Vue
pub mod V1
pub mod Twins
pub mod VueV1
pub mod Reg
