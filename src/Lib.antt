-- ===== src/Lib.antt =====
-- A model of the native objects of the CIM client library, with proofs.
--
-- The program is a client for CIM servers. Its back end, backend/cimxml, keeps the objects that a
-- caller holds: values and their copies, properties, qualifiers, parameters and methods in linked
-- lists, object paths, arguments, instances and classes over those lists, arrays and enumerations
-- for results, date and time values, and the buffer for the text of requests. The parser of the
-- responses builds the objects through the same functions that a caller uses.
--
-- Files, and the code that each is about:
--   Cmpi          frontend/sfcc/cmcidt.h: the codes, CMPIValue and CMPIData
--   Value         backend/cimxml/value.c: native_clone_CMPIValue, native_release_CMPIValue,
--                 guessType, keytype2Chars
--   Named         the linked list that property.c, qualifier.c, parameter.c and method.c each have
--   Content       what an addition stores in a node and what a change leaves there
--   Property      backend/cimxml/property.c, propertyFT
--   Qualifier     backend/cimxml/qualifier.c, qualifierFT
--   Parameter     backend/cimxml/parameter.c, parameterFT
--   Method        backend/cimxml/method.c, methodFT
--   ConstClass    backend/cimxml/constClass.c, the function table of CMPIConstClass and the
--                 functions by which the parser fills a class
--   ObjectPath    backend/cimxml/objectpath.c, the function table of CMPIObjectPath
--   Args          backend/cimxml/args.c, the function table of CMPIArgs
--   Instance      backend/cimxml/instance.c, the function table of CMPIInstance,
--                 native_new_CMPIInstance, addInstQualifier, addInstPropertyQualifier
--   Array         backend/cimxml/array.c, with native_array_increase_size and simpleArrayAdd
--   Enumeration   backend/cimxml/enumeration.c
--   StringBuffer  backend/cimxml/utilStringBuffer.c
--   DateTime      backend/cimxml/datetime.c
--   Xml           backend/cimxml/cimXmlParser.c: the buffer and its scanners; child modules for
--                 start tags (Attributes), the names of the types (Types), what a token carries
--                 (Reply), the functions of the table of tags (Messages, Paths, Declarations),
--                 and the table with sfccLex (Lex)
--   ParserHeap    the heap of the parser, at the end of backend/cimxml/cimXmlParser.c
--   Escape        backend/cimxml/client.c: XmlToAscii, XmlToAsciiStr, AsciiToXmlStr
--   Grammar       backend/cimxml/grammar.c: localLex and the functions for name spaces, hosts, and
--                 the names and paths of classes; Errors: error, with setError of
--                 backend/cimxml/parserUtil.c
--   NameSpace     getNameSpaceComponents of backend/cimxml/objectpath.c and addXmlNamespace and
--                 addXmlNamespacePath of backend/cimxml/client.c
--   Base, Decimal Boolean tests, lists, texts as bytes, decimal numbers as printf, strtoull and
--                 atoi write and read them
--   Tests         the theorems at concrete inputs
-- A child module holds the proofs about its parent; Instance.Filter models the lists of names of a
-- filter.
--
-- How the state corresponds. A linked list is a List of its nodes, and a function that changes it
-- returns the new list. A value is what the last write to the union left: bits, a text, a string
-- object, another object, or a pointer to an object that was released. A function that the source
-- lets fault returns an Option, and `none` is the fault: a second release, a read through NULL or
-- of memory that no one wrote, a write past the end of a block. A CMPIStatus is a result beside it.
-- Names are compared by strcasecmp over ASCII. The encapsulated objects are a parameter R with the
-- `clone` of their function table, on which nothing is assumed in general. Theorems that say that a
-- copy is the same assume that a clone holds the same as its object, where objects are told apart
-- by what they hold (KeepsContent). Theorems on the release of a history of calls tell objects
-- apart by numbers: a clone has the number of the call that makes it (Numbers), and the objects of
-- the caller have other numbers or any. A text or a string has no number. The calendar of the C
-- library is a parameter of DateTime, without a hypothesis. The blocks of the parser's heap are
-- numbers too.
--
-- Bounds. Memory for new objects is taken to be there. Sizes and lengths, which the code keeps
-- in variables of type `int`, are taken not to reach 2 ^ 30: the model computes them as numbers, and
-- StringBuffer.Sizes shows for a string buffer that its `int` values then stay below 2 ^ 31;
-- microseconds are reduced modulo 2 ^ 64 where the code computes with them. The doubling
-- loops of Array and StringBuffer run on fuel that counts the size asked for, which is enough since
-- a positive maximum doubles; the fuel of a client's loop over an enumeration is the number of the
-- elements. The loop over the attributes of a tag runs on one step more than the tag has names,
-- since each round marks one; the loop of sfccLex on one step more than there are bytes, since each
-- comment is passed; the loop of localNameSpacePath on one step more than there are bytes, since
-- each round reads tokens. The three are proved to be enough. Decimal numbers are written with fuel
-- for 20 digits, which is enough below 10 ^ 20.
--
-- The lexer. The buffer is the list of the bytes from `cur` to the NUL, and `cur` may be NULL. The
-- NULs that the lexer writes behind the values of attributes and behind contents are modelled by
-- taking the text before them as a value; the NUL that stands for a `<` is a byte of the buffer.
-- `char` is signed, as on x86. A call ends with a token, in `Throw`, which ends the program, or in
-- an access outside the buffer. A token carries the fields that the call writes into the union.
--
-- The grammar. A function takes the union that it writes and the parser: the buffer, the variables
-- `ct` and `dontLex` of the file, and the id of the response. It returns the union, or the fields
-- that it fills, with the parser behind it; parseError, which leaves the program, is `thrown`.
--
-- Not modelled: the other functions of the grammar (backend/cimxml/grammar.c, parserUtil.c); the
-- requests over HTTP (client.c) and the indication listener, which are input and output; the
-- printing of values and of object paths (value2CharsUri, pathToChars, pathToXml); the generic list
-- and hash table, which come from another project; and the bindings in frontend/cpp and cimc.
pub mod Base
pub mod Decimal
pub mod Cmpi
pub mod Value
pub mod Named
pub mod Content
pub mod Qualifier
pub mod Parameter
pub mod Method
pub mod Property
pub mod ObjectPath
pub mod Args
pub mod Instance
pub mod Array
pub mod Enumeration
pub mod StringBuffer
pub mod DateTime
pub mod ConstClass
pub mod Xml
pub mod Escape
pub mod ParserHeap
pub mod Grammar
pub mod NameSpace
pub mod Tests
